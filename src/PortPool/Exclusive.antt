-- ===== src/PortPool/Exclusive.antt =====
-- A pool port belongs to one route at a time.
use exalsius_operator.PortPool.{
  Listener, PoolListener, BackendRef, TcpRoute, GatewayName, tcp_listeners, section_of,
  allocated_section, allocated_sections, first_free, new_route, ensure_new, create_route,
  insert_listener, noticed, create_on, ensure_tcp_route, route_missing, no_listeners,
  ensure_existing, update_route, route_found, RouteWrite,
}
use exalsius_operator.Prelude.{
  ◌≡◌, Bool, false, some, List, [], ◌∷◌, arith, Text, text_eq, text_eq_refl, is_empty, any, inl,
  inr, refl, sym, ap, ◌∙◌, subst, Option, none, is_nil, if◌then◌else◌, Bool-cases,
}

-- Every listener of a Gateway has a name (the API server requires it).
abbrev pub HasName : List Listener → Type 0
HasName [] = Unit
HasName (l ∷ ls) = (is_empty l.name ≡ false) × HasName ls

abbrev HasSection : List PoolListener → Type 0
HasSection [] = Unit
HasSection (l ∷ ls) = (is_empty l.section ≡ false) × HasSection ls

insert-HasSection :
    (l : PoolListener) (ls : List PoolListener)
    → is_empty l.section ≡ false
    → HasSection ls
    → HasSection (insert_listener l ls)
unfolding insert_listener
insert-HasSection l [] h hs = (h, tt)
insert-HasSection l (m ∷ ms) h hs = ground (arith, insert-HasSection l ms h hs.1)

tcp_listeners-HasSection : (ls : List Listener) → HasName ls → HasSection (tcp_listeners ls)
unfolding tcp_listeners
tcp_listeners-HasSection [] h = tt
tcp_listeners-HasSection (l ∷ ls) h =
    let ih = tcp_listeners-HasSection ls h.1 in
    let ins =
      insert-HasSection (record { section = l.name; port = l.port }) (tcp_listeners ls) h.0 ih in
    ground arith

first_free_sound :
    (allocated : Text → Bool) (ls : List PoolListener) (l : PoolListener)
    → HasSection ls
    → first_free allocated ls ≡ some l
    → (allocated l.section ≡ false) × (is_empty l.section ≡ false)
unfolding first_free
first_free_sound al [] l hs e = ground arith
first_free_sound al (m ∷ ms) l hs e = ground (arith, hs.0, first_free_sound al ms l hs.1)

new_route-section :
    (gw : GatewayName) (ns ws ep : Text) (b : BackendRef) (l : PoolListener)
    → allocated_section gw (new_route gw ns ws ep b l) ≡ l.section
unfolding allocated_section section_of new_route
new_route-section gw ns ws ep b l = ground (arith, text_eq_refl gw.name, text_eq_refl gw.namespace)

allocated_sections_free :
    (gw : GatewayName) (routes : List TcpRoute) (s : Text)
    → (allocated_sections gw routes s ≡ false) × (is_empty s ≡ false)
    → any (λ q. text_eq (allocated_section gw q) s) routes ≡ false
unfolding allocated_sections
allocated_sections_free gw routes s h = ground (arith, h.0, h.1)

ensure_new-created :
    (gw : GatewayName) (pool : List PoolListener) (ns ws ep : Text) (b : BackendRef)
    (routes : List TcpRoute) (w : Bool) (r : TcpRoute)
    → (ensure_new gw pool ns ws ep b (some routes) w).write ≡ some (create_route r)
    → (l : PoolListener) × (first_free (allocated_sections gw routes) pool ≡ some l)
      × (r ≡ new_route gw ns ws ep b l)
unfolding ensure_new
ensure_new-created gw pool ns ws ep b routes w r e =
    go (first_free (allocated_sections gw routes) pool) refl e
  where
    go :
        (o : Option PoolListener)
        → first_free (allocated_sections gw routes) pool ≡ o
        → (create_on gw ns ws ep b w o).write ≡ some (create_route r)
        → (l : PoolListener) × (first_free (allocated_sections gw routes) pool ≡ some l)
          × (r ≡ new_route gw ns ws ep b l)
    go none q k = ground arith
    go (some l) q k = (l, q, ground arith)

-- A new endpoint gets a listener of its own: where a TCPRoute is created, no TCPRoute that the
-- listing showed holds the same section of the tenant Gateway, if every listener has a name.
pub ensure_tcp_route-exclusive :
    (gw : GatewayName) (ls : List Listener) (ns ws ep : Text) (b : BackendRef)
    (routes : List TcpRoute) (w : Bool) (r : TcpRoute)
    → HasName ls
    → (ensure_tcp_route gw ls ns ws ep b route_missing (some routes) w).write
      ≡ some (create_route r)
    → any (λ q. text_eq (allocated_section gw q) (allocated_section gw r)) routes ≡ false
unfolding ensure_tcp_route
ensure_tcp_route-exclusive gw ls ns ws ep b routes w r h e =
    elim (Bool-cases (is_nil (tcp_listeners ls))) [
      | inl n ↦ ground (arith, n)
      | inr n ↦
          let pool = tcp_listeners ls in
          let (l, q, er) = ensure_new-created gw pool ns ws ep b routes w r (
            subst
              (λ v.
                (if v
                  then noticed no_listeners
                  else ensure_new gw pool ns ws ep b (some routes) w).write
                ≡ some (create_route r))
              n e) in
          let es : l.section ≡ allocated_section gw r =
            sym (ap (allocated_section gw) er ∙ new_route-section gw ns ws ep b l) in
          subst (λ s. any (λ q. text_eq (allocated_section gw q) s) routes ≡ false) es
            (allocated_sections_free gw routes l.section (
              first_free_sound (allocated_sections gw routes) pool l (tcp_listeners-HasSection ls h)
                q))
    ]

-- A port stays with its workspace: the only write for an endpoint that has a TCPRoute is an update
-- that leaves the route on the section that it holds.
pub ensure_tcp_route_sticky :
    (gw : GatewayName) (ls : List Listener) (ns ws ep : Text) (b : BackendRef) (route : TcpRoute)
    (routes : Option (List TcpRoute)) (w : Bool) (x : RouteWrite)
    → (ensure_tcp_route gw ls ns ws ep b (route_found route) routes w).write ≡ some x
    → (r : TcpRoute) × (x ≡ update_route r) × (allocated_section gw r ≡ allocated_section gw route)
unfolding ensure_tcp_route ensure_existing allocated_section
ensure_tcp_route_sticky gw ls ns ws ep b route routes w x h =
    (record route { rules = (b ∷ []) ∷ [] }, ground arith, refl)
