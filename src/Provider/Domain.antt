-- ===== src/Provider/Domain.antt =====
-- The tenant domain, against a description by two searches of the listeners.
use exalsius_operator.Prelude.{
  ◌≡◌, Option, none, some, List, [], ◌∷◌, Text, bytes, is_empty, if◌then◌else◌, ℕ, refl, ◌∙◌, arith,
  or_else,
}
use exalsius_operator.Provider.Context.{
  GatewayListener, wildcard_of, domain_loop, tenant_domain_from_gateway, https_protocol,
  http_protocol, ListenerProtocol, tcp_protocol, other_protocol,
}

-- The domain of a listener, if it has the protocol.
abbrev https_of : ListenerProtocol → Option Text → Option Text
https_of https_protocol o = o
https_of _ o = none

abbrev http_of : ListenerProtocol → Option Text → Option Text
http_of http_protocol o = o
http_of _ o = none

-- The domain of the first HTTPS listener with a wildcard hostname.
abbrev first_https : List GatewayListener → Option Text
first_https [] = none
first_https (l ∷ ls) = or_else (https_of l.protocol (wildcard_of l)) (first_https ls)

abbrev unless_empty : Option Text → Text → Text
unless_empty none e = e
unless_empty (some d) e = if is_empty d then e else d

-- The first domain of an HTTP listener that is not empty.
abbrev first_http : List GatewayListener → Text
first_http [] = []
first_http (l ∷ ls) = unless_empty (http_of l.protocol (wildcard_of l)) (first_http ls)

-- The choice between the two, and the domain of an HTTP listener before them.
abbrev chosen : Text → Option Text → Text → Text × Text
chosen h (some d) e = (d, bytes "https")
chosen h none e =
    let d = if is_empty h then e else h in if is_empty d then ([], []) else (d, bytes "http")

-- An HTTPS wildcard listener wins wherever it stands, then the first HTTP one with a domain.
abbrev pub described_domain : List GatewayListener → Text × Text
described_domain ls = chosen [] (first_https ls) (first_http ls)

chosen_later :
    (d : Text) (o : Option Text) (e : Text)
    → chosen d o e ≡ chosen [] o (if is_empty d then e else d)
unfolding is_empty
chosen_later d (some a) e = refl
chosen_later [] none e = refl
chosen_later (c ∷ d) none e = refl

chosen_skip :
    (c : ℕ) (h : Text) (o : Option Text) (e f : Text) → chosen (c ∷ h) o e ≡ chosen (c ∷ h) o f
unfolding is_empty
chosen_skip c h (some a) e f = refl
chosen_skip c h none e f = refl

chosen-none : (h : Text) → (if is_empty h then ([], []) else (h, bytes "http")) ≡ chosen h none []
unfolding is_empty
chosen-none [] = refl
chosen-none (c ∷ h) = refl

-- One turn of the loop, by the protocol and the domain of the listener.
abbrev turn : Text → ListenerProtocol → Option Text → List GatewayListener → Text × Text
turn h p none ls = domain_loop h ls
turn h https_protocol (some d) ls = (d, bytes "https")
turn h http_protocol (some d) ls = if is_empty h then domain_loop d ls else domain_loop h ls
turn h _ (some d) ls = domain_loop h ls

domain_step :
    (h : Text) (p : ListenerProtocol) (o : Option Text) (ls : List GatewayListener)
    → ((g : Text) → domain_loop g ls ≡ chosen g (first_https ls) (first_http ls))
    → turn h p o ls
      ≡ chosen h
          (or_else (https_of p o) (first_https ls))
          (unless_empty (http_of p o) (first_http ls))
unfolding is_empty
domain_step h https_protocol none ls ih = ih h
domain_step h http_protocol none ls ih = ih h
domain_step h tcp_protocol none ls ih = ih h
domain_step h other_protocol none ls ih = ih h
domain_step h https_protocol (some d) ls ih = refl
domain_step [] http_protocol (some d) ls ih = ih d ∙ chosen_later d (first_https ls) (first_http ls)
domain_step (c ∷ h) http_protocol (some d) ls ih =
    ih (c ∷ h) ∙ chosen_skip c h (first_https ls) (first_http ls) _
domain_step h tcp_protocol (some d) ls ih = ih h
domain_step h other_protocol (some d) ls ih = ih h

domain_loop-turn :
    (h : Text) (l : GatewayListener) (ls : List GatewayListener)
    → domain_loop h (l ∷ ls) ≡ turn h l.protocol (wildcard_of l) ls
unfolding domain_loop
domain_loop-turn h l ls = ground arith

domain_loop_lem :
    (h : Text) (ls : List GatewayListener)
    → domain_loop h ls ≡ chosen h (first_https ls) (first_http ls)
unfolding domain_loop
domain_loop_lem h [] = chosen-none h
domain_loop_lem h (l ∷ ls) =
    domain_loop-turn h l ls
    ∙ domain_step h l.protocol (wildcard_of l) ls (λ g. domain_loop_lem g ls)

-- The tenant domain is the one that two separate searches find: that of the first HTTPS listener with a
-- wildcard hostname, wherever it stands, or else that of the first HTTP listener with a wildcard
-- hostname and a domain behind it, and the scheme is the one of that listener.
pub tenant_domain_from_gateway-described_domain :
    (ls : List GatewayListener) → tenant_domain_from_gateway ls ≡ described_domain ls
unfolding tenant_domain_from_gateway
tenant_domain_from_gateway-described_domain ls = domain_loop_lem [] ls
