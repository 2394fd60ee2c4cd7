-- ===== src/Gpu/Inventory.antt =====
-- What the derived offerings say of the cluster: they account for every GPU, and what they
-- advertise the gate accepts.
use exalsius_operator.Prelude.{
  ℕ, ◌+◌, ◌≡◌, refl, Text, List, Bool, true, ◌∷◌, [], ◌&&◌, ltb, any, text_eq_refl, label,
  if◌then◌else◌, arith, Bool-cases, inl, inr, ◌≢◌, keep, sum, map, Memᴰ, All, ◌∙◌, subst, sym,
}
use exalsius_operator.Kube.{Node, Pod, node_is_schedulable, amount}
use exalsius_operator.Gpu.{
  VendorResource, vendor_resources, Options, model_label_of, product_labels_of,
  node_matches_selector, resolve_model_selector, first_product,
}
use exalsius_operator.Gpu.Availability.{availability_for_selector, selected}
use exalsius_operator.Gpu.Gate.{has_gpu, node_gpus, selector-found}
use exalsius_operator.Gpu.Offerings.{
  Offering, OfferingKey, Inventory, add_count, fresh_offering, offering_key, offering_vendor,
  offer_resource, offer_resources, offer_nodes, insert_offering, sort_offerings, derive_offerings,
  key_eq, offering_less,
}
use exalsius_operator.Provider.{P}

-- The GPUs of all offerings.
abbrev pub offered : List Offering → ℕ
offered os = sum (map (λ o. o.total) os)

abbrev held : Inventory → ℕ
held [] = 0
held ((k, o) ∷ inv) = o.total + held inv

held-add_count :
    (k : OfferingKey) (f : Offering) (c : ℕ) (inv : Inventory)
    → f.total ≡ 0
    → held (add_count k f c inv) ≡ held inv + c
unfolding add_count
held-add_count k f c [] h = omega arith
held-add_count k f c ((j, o) ∷ inv) h = ground (arith, held-add_count k f c inv h)

held-offer_resource :
    (o : Options) (n : Node) (vr : VendorResource) (inv : Inventory)
    → held (offer_resource o n vr inv) ≡ held inv + amount vr.resource_name n.allocatable
unfolding offer_resource fresh_offering
held-offer_resource o n vr inv = ground (
  arith,
  held-add_count (offering_key (fresh_offering o n vr)) (fresh_offering o n vr)
      (amount vr.resource_name n.allocatable) inv refl,
)

held-offer_resources :
    (o : Options) (n : Node) (vrs : List VendorResource) (inv : Inventory)
    → held (offer_resources o n vrs inv)
      ≡ held inv + sum (map (λ vr. amount vr.resource_name n.allocatable) vrs)
unfolding offer_resources
held-offer_resources o n [] inv = omega arith
held-offer_resources o n (vr ∷ vrs) inv = omega (
  arith,
  held-offer_resources o n vrs (offer_resource o n vr inv),
  held-offer_resource o n vr inv,
)

held-offer_nodes :
    (o : Options) (ns : List Node) (inv : Inventory)
    → held (offer_nodes o ns inv) ≡ held inv + sum (map node_gpus (keep node_is_schedulable ns))
unfolding offer_nodes node_gpus
held-offer_nodes o [] inv = omega arith
held-offer_nodes o (n ∷ ns) inv = ground (
  arith,
  held-offer_nodes o ns
      (if node_is_schedulable n then offer_resources o n vendor_resources inv else inv),
  held-offer_resources o n vendor_resources inv,
)

offered-insert_offering :
    (o : Offering) (os : List Offering) → offered (insert_offering o os) ≡ o.total + offered os
unfolding insert_offering
offered-insert_offering o [] = omega arith
offered-insert_offering o (p ∷ ps) = ground (arith, offered-insert_offering o ps)

offered-sort_offerings : (inv : Inventory) → offered (sort_offerings inv) ≡ held inv
unfolding sort_offerings
offered-sort_offerings [] = refl
offered-sort_offerings ((k, o) ∷ inv) =
    omega (arith, offered-insert_offering o (sort_offerings inv), offered-sort_offerings inv)

-- The totals of the offerings add up to the GPUs that the schedulable nodes advertise: every GPU is
-- in one offering, and none is counted twice.
pub offered-derive_offerings :
    (nodes : List Node) (o : Options)
    → offered (derive_offerings nodes o) ≡ sum (map node_gpus (keep node_is_schedulable nodes))
unfolding derive_offerings
offered-derive_offerings nodes o =
    omega (arith, offered-sort_offerings (offer_nodes o nodes []), held-offer_nodes o nodes [])

-- A node that the offering can be placed on: it is schedulable, matches the offering's selector,
-- advertises the offering's resource, and that is a GPU of a supported vendor.
unfoldable pub offers : Offering → Node → Bool
unfolding selected
offers o n = selected o.selector n && (ltb 0 (amount o.resource_name n.allocatable) && has_gpu n)

first_product-matches :
    (n : Node) (ks : List Text) → node_matches_selector n (first_product n ks).1 ≡ true
unfolding node_matches_selector
first_product-matches n [] = refl
first_product-matches n (k ∷ ks) =
    ground (arith, first_product-matches n ks, text_eq_refl (label k n.labels))

resolve_model_selector-matches :
    (n : Node) (l : Text) (ks : List Text)
    → node_matches_selector n (resolve_model_selector n l ks).1 ≡ true
unfolding resolve_model_selector node_matches_selector
resolve_model_selector-matches n l ks =
    ground (arith, first_product-matches n ks, text_eq_refl (label l n.labels))

fresh_offering-offers :
    (o : Options) (n : Node) (vr : VendorResource)
    → node_is_schedulable n ≡ true
    → has_gpu n ≡ true
    → ltb 0 (amount vr.resource_name n.allocatable) ≡ true
    → offers (fresh_offering o n vr) n ≡ true
unfolding offers fresh_offering
fresh_offering-offers o n vr s g c = ground (
  arith,
  resolve_model_selector-matches n (model_label_of o)
      (product_labels_of o (offering_vendor o n vr)),
)

-- What each resource of the node would add can be placed on the node.
fresh_offerings-offers :
    (o : Options) (n : Node)
    → node_is_schedulable n ≡ true
    → All
        (λ vr.
          ltb 0 (amount vr.resource_name n.allocatable) ≡ true
          → offers (fresh_offering o n vr) n ≡ true)
        vendor_resources
unfolding has_gpu
fresh_offerings-offers o n s = (
  (λ c. fresh_offering-offers o n _ s (ground arith) c),
  ((λ c. fresh_offering-offers o n _ s (ground arith) c), tt),
)

-- Every offering of the inventory passes a test.
abbrev Passes : (Offering → Bool) → Inventory → Type 0
Passes p [] = Unit
Passes p ((k, o) ∷ inv) = (p o ≡ true) × Passes p inv

-- A test that does not look at the two counters.
abbrev IgnoresCount : (Offering → Bool) → Type 0
IgnoresCount p = (o : Offering) (t m : ℕ) → p (record o { total = t; nodes = m }) ≡ p o

add_count-Passes :
    (p : Offering → Bool) (k : OfferingKey) (f : Offering) (c : ℕ) (inv : Inventory)
    → IgnoresCount p
    → p f ≡ true
    → Passes p inv
    → Passes p (add_count k f c inv)
unfolding add_count
add_count-Passes p k f c [] g h i = (g f (f.total + c) (f.nodes + 1) ∙ h, tt)
add_count-Passes p k f c ((j, o) ∷ inv) g h i = elim (Bool-cases (key_eq j k)) [
  | inl e ↦ rw e (g o (o.total + c) (o.nodes + 1) ∙ i.0, i.1)
  | inr e ↦ rw e (i.0, add_count-Passes p k f c inv g h i.1)
]

-- A test that holds of what the node `n` adds is kept by the round of `n`.
module _ (p : Offering → Bool) (g : IgnoresCount p) (o : Options) (n : Node) where
  offer_resources-Passes :
      (vrs : List VendorResource) (inv : Inventory)
      → All
          (λ vr.
            ltb 0 (amount vr.resource_name n.allocatable) ≡ true → p (fresh_offering o n vr) ≡ true)
          vrs
      → Passes p inv
      → Passes p (offer_resources o n vrs inv)
  unfolding offer_resources offer_resource
  offer_resources-Passes [] inv h i = i
  offer_resources-Passes (vr ∷ vrs) inv h i =
      offer_resources-Passes vrs (offer_resource o n vr inv) h.1
        (elim (Bool-cases (ltb 0 (amount vr.resource_name n.allocatable))) [
          | inl e ↦ rw e (
              add_count-Passes p (offering_key (fresh_offering o n vr)) (fresh_offering o n vr)
                (amount vr.resource_name n.allocatable) inv g (h.0 e) i)
          | inr e ↦ rw e i
        ])

-- Some node of the list can carry the offering.
unfoldable pub somewhere : List Node → Offering → Bool
somewhere ns o = any (offers o) ns

somewhere-IgnoresCount : (ns : List Node) → IgnoresCount (somewhere ns)
unfolding somewhere offers
somewhere-IgnoresCount ns o t m = refl

-- `ns` is a part of `whole`.
abbrev Within : List Node → List Node → Type 0
Within ns whole = (q : Node → Bool) → any q ns ≡ true → any q whole ≡ true

somewhere_first :
    (o : Offering) (n : Node) (ns whole : List Node)
    → Within (n ∷ ns) whole
    → offers o n ≡ true
    → somewhere whole o ≡ true
unfolding somewhere
somewhere_first o n ns whole w h = w (offers o) (ground arith)

offer_nodes-Passes :
    (o : Options) (whole ns : List Node) (inv : Inventory)
    → Within ns whole
    → Passes (somewhere whole) inv
    → Passes (somewhere whole) (offer_nodes o ns inv)
unfolding offer_nodes
offer_nodes-Passes o whole [] inv w i = i
offer_nodes-Passes o whole (n ∷ ns) inv w i =
    offer_nodes-Passes o whole ns
      (if node_is_schedulable n then offer_resources o n vendor_resources inv else inv)
      (λ q e. w q (ground arith))
      (elim (Bool-cases (node_is_schedulable n)) [
        | inl s ↦ rw s (
            offer_resources-Passes (somewhere whole) (somewhere-IgnoresCount whole) o n
              vendor_resources inv
              (let f = fresh_offerings-offers o n s in
                (
                  (λ c. somewhere_first _ n ns whole w (f.0 c)),
                  ((λ c. somewhere_first _ n ns whole w (f.1.0 c)), tt),
                ))
              i)
        | inr s ↦ rw s i
      ])

abbrev pub IsPlaceable : List Node → Offering → Type 0
IsPlaceable ns o = somewhere ns o ≡ true

insert_offering-All :
    (ns : List Node) (o : Offering) (os : List Offering)
    → IsPlaceable ns o
    → All (IsPlaceable ns) os
    → All (IsPlaceable ns) (insert_offering o os)
unfolding insert_offering
insert_offering-All ns o [] h i = (h, tt)
insert_offering-All ns o (p ∷ ps) h i = elim (Bool-cases (offering_less p o)) [
  | inl e ↦ rw e (i.0, insert_offering-All ns o ps h i.1)
  | inr e ↦ rw e (h, i)
]

sort_offerings-All :
    (ns : List Node) (inv : Inventory)
    → Passes (somewhere ns) inv
    → All (IsPlaceable ns) (sort_offerings inv)
unfolding sort_offerings
sort_offerings-All ns [] i = tt
sort_offerings-All ns ((k, o) ∷ inv) i =
    insert_offering-All ns o (sort_offerings inv) i.0 (sort_offerings-All ns inv i.1)

-- Every derived offering is placeable: some schedulable node matches its selector and advertises
-- its resource.
pub derive_offerings-IsPlaceable :
    (nodes : List Node) (o : Options) → All (IsPlaceable nodes) (derive_offerings nodes o)
unfolding derive_offerings
derive_offerings-IsPlaceable nodes o =
    sort_offerings-All nodes (offer_nodes o nodes [])
      (offer_nodes-Passes o nodes nodes [] (λ q e. e) tt)

All-Memᴰ : (P : Offering → Type 0) {o : Offering} (os : List Offering) → All P os → Memᴰ o os → P o
All-Memᴰ P [] h m = elim m [ ]
All-Memᴰ P (p ∷ ps) h (Memᴰ.head e) = subst P (sym e) h.0
All-Memᴰ P (p ∷ ps) h (Memᴰ.tail m) = All-Memᴰ P ps h.1 m

any_mono :
    (p q : Node → Bool) (ns : List Node)
    → ((n : Node) → p n ≡ true → q n ≡ true)
    → any p ns ≡ true
    → any q ns ≡ true
any_mono p q [] h e = e
any_mono p q (n ∷ ns) h e = ground (arith, h n, any_mono p q ns h)

-- What the inventory advertises the gate accepts: a derived offering with a selector is found by
-- the availability scan over the same nodes, whatever the pods.
pub derive_offerings-found :
    (nodes : List Node) (pods : List Pod) (o : Options) (f : Offering)
    → Memᴰ f (derive_offerings nodes o)
    → f.selector ≢ []
    → (availability_for_selector nodes pods f.selector).found ≡ true
unfolding somewhere offers
derive_offerings-found nodes pods o f m ne =
    selector-found nodes pods f.selector ne
    ∙ any_mono (offers f) (λ n. selected f.selector n && has_gpu n) nodes (λ n h. ground arith)
        (All-Memᴰ (IsPlaceable nodes) (derive_offerings nodes o)
          (derive_offerings-IsPlaceable nodes o) m)
