-- ===== src/Naming/Bounds.antt =====
-- The derived names fit where Kubernetes puts them.
use exalsius_operator.Naming.{
  trim_right, bounded_name, waypoint_name, is_alnum, is_label_value, sanitize_label_value,
  is_label_char, label_tail,
}
use exalsius_operator.Prelude.{
  ℕ, ◌*◌, ◌≤◌, ◌≡◌, true, [], ◌∷◌, arith, Text, length, all, ◌+◌, ◌-◌, refl, ◌++◌, bytes, take,
  length-append, length-take, inl, inr, Bool-cases,
}

length-trim_right : (s : Text) → length (trim_right s) ≤ length s
unfolding trim_right
length-trim_right [] = omega arith
length-trim_right (c ∷ s) = ground (arith, length-trim_right s)

length-take_le : (n : ℕ) (s : Text) → length (take n s) ≤ n
length-take_le n s = omega (arith, length-take n s)

-- The hexadecimal digits of `n` bytes are `2 * n` letters and digits.
pub record IsHex (hex : ℕ → Text → Text) : Type 0 where
  pub digits : (n : ℕ) (t : Text) → length (hex n t) ≡ 2 * n
  pub alnum : (n : ℕ) (t : Text) → all is_alnum (hex n t) ≡ true

-- A text of letters and digits ends a label value.
label_tail_alnum : (s : Text) → all is_alnum s ≡ true → label_tail s ≡ true
unfolding label_tail is_label_char
label_tail_alnum [] h = refl
label_tail_alnum (c ∷ []) h = ground arith
label_tail_alnum (c ∷ d ∷ s) h = ground (arith, label_tail_alnum (d ∷ s))

hash-IsLabelValue :
    (s : Text) → length s ≡ 16 → label_tail s ≡ true → is_label_value (bytes "hash-" ++ s) ≡ true
unfolding is_label_value label_tail is_label_char is_alnum
hash-IsLabelValue [] h t = ground arith
hash-IsLabelValue (c ∷ s) h t = ground arith

module _ (hex : ℕ → Text → Text) (h : IsHex hex) where
  -- Every name that is bounded has at most 63 bytes, the length of a label value, however long the
  -- names are that it is made of.
  pub bounded_name_fits : (name : Text) → length (bounded_name hex name) ≤ 63
  unfolding bounded_name
  bounded_name_fits name =
      let suffix = bytes "-" ++ hex 4 name in
      let cut = take (63 - length suffix) name in
      let ls : length suffix ≡ 9 = omega (arith, h.digits 4 name) in
      let lt = length-take_le (63 - length suffix) name in
      let lr = length-trim_right cut in
      let la = length-append (trim_right cut) suffix in ground arith

  -- The waypoint of a cluster has a name of at most 63 bytes.
  pub waypoint_name_fits : (cd_name : Text) → length (waypoint_name hex cd_name) ≤ 63
  unfolding waypoint_name
  waypoint_name_fits cd_name =
      let dig = take 8 (hex 32 cd_name) in
      let ld : length dig ≡ 8 =
        omega (arith, length-take 8 (hex 32 cd_name), h.digits 32 cd_name) in
      let keep_len = 63 - (1 + length dig) - 9 in
      let lt = length-take_le keep_len cd_name in
      let la = length-append (take keep_len cd_name) (bytes "-" ++ (dig ++ bytes "-waypoint")) in
      let lb = length-append dig (bytes "-waypoint") in ground arith

  -- What is written as a label value is one: letters, digits, dashes, underscores and dots, with a
  -- letter or a digit at both ends and at most 63 bytes.
  pub sanitize_label_value_lem : (v : Text) → is_label_value (sanitize_label_value hex v) ≡ true
  unfolding sanitize_label_value
  sanitize_label_value_lem v = elim (Bool-cases (is_label_value v)) [
    | inl e ↦ rw e e
    | inr e ↦
        rw e (hash-IsLabelValue (hex 8 v) (h.digits 8 v) (label_tail_alnum (hex 8 v) (h.alnum 8 v)))
  ]
