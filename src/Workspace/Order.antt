-- ===== src/Workspace/Order.antt =====
-- The order in which waiting workspaces are served.
use exalsius_operator.Prelude.{◌≡◌, true, false, refl, [], ◌∷◌, arith, Text, text_ltb}
use exalsius_operator.Workspace.{Age, is_older_workspace}

text_ltb_asym : (s t : Text) → text_ltb s t ≡ true → text_ltb t s ≡ false
unfolding text_ltb
text_ltb_asym [] [] h = ground arith
text_ltb_asym [] (b ∷ t) h = ground arith
text_ltb_asym (a ∷ s) [] h = ground arith
text_ltb_asym (a ∷ s) (b ∷ t) h = ground (arith, text_ltb_asym s t)

text_ltb_total : (s t : Text) → text_ltb s t ≡ false → text_ltb t s ≡ false → s ≡ t
unfolding text_ltb
text_ltb_total [] [] h k = refl
text_ltb_total [] (b ∷ t) h k = ground arith
text_ltb_total (a ∷ s) [] h k = ground arith
text_ltb_total (a ∷ s) (b ∷ t) h k = ground (arith, text_ltb_total s t)

text_ltb_trans : (s t u : Text) → text_ltb s t ≡ true → text_ltb t u ≡ true → text_ltb s u ≡ true
unfolding text_ltb
text_ltb_trans [] [] u h k = ground arith
text_ltb_trans [] (b ∷ t) [] h k = ground arith
text_ltb_trans [] (b ∷ t) (c ∷ u) h k = refl
text_ltb_trans (a ∷ s) [] u h k = ground arith
text_ltb_trans (a ∷ s) (b ∷ t) [] h k = ground arith
text_ltb_trans (a ∷ s) (b ∷ t) (c ∷ u) h k = ground (arith, text_ltb_trans s t u)

-- Of two workspaces at most one is older, so two that wait for the same GPUs never wait for each
-- other.
pub is_older_workspace_asym :
    (a b : Age) → is_older_workspace a b ≡ true → is_older_workspace b a ≡ false
unfolding is_older_workspace
is_older_workspace_asym a b h = ground (arith, text_ltb_asym a.uid b.uid)

-- Of two workspaces with different UIDs one is older, so one of them is served.
pub is_older_workspace_total :
    (a b : Age) → ¬ (a.uid ≡ b.uid) → is_older_workspace a b ≡ false → is_older_workspace b a ≡ true
unfolding is_older_workspace
is_older_workspace_total a b n h = ground (arith, text_ltb_total a.uid b.uid)

-- Being older is transitive: who is older than one that is older than a third is older than the
-- third.
is_older_workspace_trans :
    (a b c : Age)
    → is_older_workspace a b ≡ true
    → is_older_workspace b c ≡ true
    → is_older_workspace a c ≡ true
unfolding is_older_workspace
is_older_workspace_trans a b c h k = ground (arith, text_ltb_trans a.uid b.uid c.uid)
