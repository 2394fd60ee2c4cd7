-- ===== src/Provider/Exclusive.antt =====
-- Which sections of the tenant Gateway the TCPRoutes of a regional cluster hold, over one write of
-- ensureTCPRoute.
use exalsius_operator.Prelude.{
  ◌≡◌, refl, sym, ap, subst, inl, inr, Bool, true, false, not, ◌||◌, Option, none, some, List, [],
  ◌∷◌, Text, text_eq, text_eq_iff, is_empty, any, if◌then◌else◌, arith, Bool-cases, text_eq_refl,
}
use exalsius_operator.PortPool.{
  GatewayName, Listener, TcpRoute, BackendRef, allocated_section, RouteAnswer, route_found,
  route_missing, route_kind_missing, route_error, RouteWrite, create_route, update_route,
  ensure_tcp_route, ensure_new, ensure_existing,
}
use exalsius_operator.PortPool.Exclusive.{HasName, ensure_tcp_route-exclusive}
use exalsius_operator.Provider.{Store, Replies}
use exalsius_operator.Provider.Routes.{
  find_tcp_route, put_tcp_route, apply_write, is_route, was_created, tcp_answer,
}

-- The sections that the TCPRoutes hold, an empty text for one that holds none.
abbrev pub sections : GatewayName → List TcpRoute → List Text
sections gw [] = []
sections gw (r ∷ rs) = allocated_section gw r ∷ sections gw rs

-- No section is held twice.
abbrev pub Distinct : List Text → Type 0
Distinct [] = Unit
Distinct (s ∷ ss) = ((is_empty s || not (any (λ t. text_eq t s) ss)) ≡ true) × Distinct ss

module _ (gw : GatewayName) where
  any-sections :
      (s : Text) (rs : List TcpRoute)
      → any (λ t. text_eq t s) (sections gw rs) ≡ any (λ q. text_eq (allocated_section gw q) s) rs
  any-sections s [] = refl
  any-sections s (r ∷ rs) = ap (λ b. text_eq (allocated_section gw r) s || b) (any-sections s rs)

  find-name :
      (name ns : Text) (r : TcpRoute) (rs : List TcpRoute)
      → find_tcp_route name ns rs ≡ route_found r
      → (r.name ≡ name) × (r.namespace ≡ ns)
  find-name name ns r [] e = ground (arith, e)
  find-name name ns r (q ∷ rs) e = elim (Bool-cases (is_route name ns q)) [
    | inl h ↦ ground (arith, h, text_eq_iff q.name name, text_eq_iff q.namespace ns)
    | inr h ↦ find-name name ns r rs (ground (arith, h))
  ]

  -- An update of the route that was found keeps the sections.
  put-sections :
      (name ns : Text) (b : List (List BackendRef)) (r : TcpRoute) (rs : List TcpRoute)
      → find_tcp_route name ns rs ≡ route_found r
      → sections gw (put_tcp_route (record r { rules = b }) rs) ≡ sections gw rs
  unfolding allocated_section
  put-sections name ns b r [] e = ground (arith, e)
  put-sections name ns b r (q ∷ rs) e = elim (Bool-cases (is_route name ns q)) [
    | inl h ↦ ground (arith, h, text_eq_refl q.name, text_eq_refl q.namespace)
    | inr h ↦
        let e' : find_tcp_route name ns rs ≡ route_found r = ground (arith, h) in
        let (en, es) = find-name name ns r rs e' in
        let h' : is_route r.name r.namespace q ≡ false = ground (arith, h, en, es) in
        ground (arith, h', put-sections name ns b r rs e')
  ]

  update-route_found :
      (ls : List Listener) (ns ws name : Text) (b : BackendRef) (q : TcpRoute)
      (l : Option (List TcpRoute)) (w : Bool) (x : RouteWrite)
      → (ensure_tcp_route gw ls ns ws name b (route_found q) l w).write ≡ some x
      → x ≡ update_route (record q { rules = (b ∷ []) ∷ [] })
  unfolding ensure_tcp_route ensure_existing
  update-route_found ls ns ws name b q l w x e = ground arith

  new-create_route :
      (ls : List Listener) (ns ws name : Text) (b : BackendRef) (a : RouteAnswer)
      (l : Option (List TcpRoute)) (w : Bool) (r : TcpRoute)
      → (ensure_tcp_route gw ls ns ws name b a l w).write ≡ some (create_route r)
      → (a ≡ route_missing) × (rs : List TcpRoute) × (l ≡ some rs)
  unfolding ensure_tcp_route ensure_existing ensure_new
  new-create_route ls ns ws name b route_missing none w r e = ground arith
  new-create_route ls ns ws name b route_missing (some rs) w r e = (refl, rs, refl)
  new-create_route ls ns ws name b (route_found q) l w r e = ground arith
  new-create_route ls ns ws name b route_kind_missing l w r e = ground arith
  new-create_route ls ns ws name b route_error l w r e = ground arith

  update-found :
      (ls : List Listener) (ns ws name : Text) (b : BackendRef) (a : RouteAnswer)
      (l : Option (List TcpRoute)) (w : Bool) (r : TcpRoute)
      → (ensure_tcp_route gw ls ns ws name b a l w).write ≡ some (update_route r)
      → (q : TcpRoute) × (a ≡ route_found q) × (r ≡ record q { rules = (b ∷ []) ∷ [] })
  unfolding ensure_tcp_route ensure_existing ensure_new
  update-found ls ns ws name b route_missing none w r e = ground arith
  update-found ls ns ws name b route_missing (some rs) w r e = ground arith
  update-found ls ns ws name b (route_found q) l w r e = (q, refl, ground arith)
  update-found ls ns ws name b route_kind_missing l w r e = ground arith
  update-found ls ns ws name b route_error l w r e = ground arith

  if-Distinct :
      (c : Bool) (rs ts : List TcpRoute)
      → Distinct (sections gw rs)
      → Distinct (sections gw ts)
      → Distinct (sections gw (if c then rs else ts))
  if-Distinct true rs ts h k = h
  if-Distinct false rs ts h k = k

  create-Distinct :
      (ls : List Listener) (ns ws name : Text) (b : BackendRef) (a : RouteAnswer)
      (rs : List TcpRoute) (listing w : Bool) (r : TcpRoute)
      → HasName ls
      → Distinct (sections gw rs)
      → (ensure_tcp_route gw ls ns ws name b a (if listing then some rs else none) w).write
        ≡ some (create_route r)
      → Distinct (sections gw (r ∷ rs))
  create-Distinct ls ns ws name b a rs false w r h d e =
      let (m, l, k) = new-create_route ls ns ws name b a none w r e in ground arith
  create-Distinct ls ns ws name b a rs true w r h d e =
      let (m, l, k) = new-create_route ls ns ws name b a (some rs) w r e in
      let free = ensure_tcp_route-exclusive gw ls ns ws name b rs w r h (
        subst
          (λ t. (ensure_tcp_route gw ls ns ws name b t (some rs) w).write ≡ some (create_route r)) m
          e) in
      (ground (arith, any-sections (allocated_section gw r) rs, free), d)

  module _ (w : Replies) (ls : List Listener) (ws name ns : Text) (b : BackendRef)
      (rs : List TcpRoute) where
    -- What ensureTCPRoute asks for one endpoint keeps the sections apart.
    pub apply-Distinct :
        (a : RouteAnswer) (listing written : Bool) (o : Option RouteWrite)
        → HasName ls
        → ((r : TcpRoute) → a ≡ route_found r → find_tcp_route name ns rs ≡ route_found r)
        → Distinct (sections gw rs)
        → (ensure_tcp_route gw ls ns ws name b a (if listing then some rs else none) written).write
          ≡ o
        → Distinct (sections gw (apply_write w name o rs))
    apply-Distinct a listing written none h hf d e = d
    apply-Distinct a listing written (some (create_route r)) h hf d e =
        if-Distinct (was_created (w.tcp_creation name)) (r ∷ rs) rs
          (create-Distinct ls ns ws name b a rs listing written r h d e) d
    apply-Distinct a listing written (some (update_route r)) h hf d e =
        let (q, ea, er) =
          update-found ls ns ws name b a (if listing then some rs else none) written r e in
        let same = put-sections name ns ((b ∷ []) ∷ []) q rs (hf q ea) in
        if-Distinct (w.tcp_update name) (put_tcp_route r rs) rs
          (subst (λ x. Distinct (sections gw (put_tcp_route x rs))) (sym er)
            (subst Distinct (sym same) d))
          d

module _ (w : Replies) where
  pub answer_found :
      (name ns : Text) (s : Store) (r : TcpRoute)
      → tcp_answer w name ns s ≡ route_found r
      → find_tcp_route name ns s.tcp_routes ≡ route_found r
  answer_found name ns s r e = ground arith
