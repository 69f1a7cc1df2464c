-- ===== src/Rbac/Capability/Sanitize.antt =====
-- What is left of an untrusted list of capabilities.
use rem0te.Rbac.Capability.{
  find_capability, of_key, Capability, Capability-discrete, key, sanitize_items,
  all_business_capabilities, add_found, sanitize_capabilities, keep_assignable, is_assignable,
  sanitize_technician_capabilities,
}
use rem0te.Prelude.{
  ◌≡◌, refl, inl, inr, Bool, true, false, ◌&&◌, ◌||◌, Option, none, some, List, [], ◌∷◌, ◌++◌,
  String, str_eq, eq_iff, arith, same, same_iff, includes, Bool-cases, Option-cases, sym, ◌∙◌, ap,
}
use rem0te.Prelude.Json.{Json, Items}

-- The key of a capability is an element of the array.
mentions_items : Capability → Items → Bool
mentions_items c Items.nil = false
mentions_items c (Items.cons (Json.string s) xs) = str_eq (key c) s || mentions_items c xs
mentions_items c (Items.cons _ xs) = mentions_items c xs

unfoldable pub mentions : Capability → Json → Bool
unfolding mentions_items
mentions c (Json.array xs) = mentions_items c xs
mentions c _ = false

of_key-key : (c : Capability) → of_key (key c) ≡ some c
unfolding of_key
of_key-key Capability.computers_view = refl
of_key-key _ = refl

key-find_capability :
    (s : String) (cs : List Capability) (c : Capability) → find_capability s cs ≡ some c → key c ≡ s
unfolding find_capability
key-find_capability s [] c h = cc
key-find_capability s (x ∷ cs) c h = elim (Bool-cases (str_eq (key x) s)) [
  | inl e ↦ ground (arith, eq_iff (key x) s)
  | inr e ↦ key-find_capability s cs c (ground arith)
]

abbrev is_found : Capability → Option Capability → Bool
is_found c none = false
is_found c (some d) = same Capability-discrete c d

key-of_key : (s : String) (d : Capability) → of_key s ≡ some d → key d ≡ s
unfolding of_key
key-of_key s d h = key-find_capability s all_business_capabilities d h

str_eq-key : (c : Capability) (s : String) → str_eq (key c) s ≡ is_found c (of_key s)
str_eq-key c s = elim (Bool-cases (str_eq (key c) s)) [
  | inl e ↦
      rw (e, ← (eq_iff (key c) s).0 e, of_key-key c)
        (sym ((same_iff Capability-discrete c c).1 refl))
  | inr e ↦ elim (Option-cases (of_key s)) [
    | inl n ↦ rw (e, n)
    | inr (d, f) ↦ rw f (
        ground (
          arith,
          e,
          same_iff Capability-discrete c d,
          key-of_key s d f,
          eq_iff (key c) s,
          eq_iff (key d) s,
        ))
  ]
]

includes-snoc :
    (c d : Capability) (cs : List Capability)
    → includes Capability-discrete c (cs ++ d ∷ [])
      ≡ (includes Capability-discrete c cs || same Capability-discrete c d)
unfolding includes
includes-snoc c d [] = ground arith
includes-snoc c d (x ∷ cs) = ground (arith, includes-snoc c d cs)

includes-add_found :
    (c : Capability) (o : Option Capability) (seen : List Capability)
    → includes Capability-discrete c (add_found o seen)
      ≡ (includes Capability-discrete c seen || is_found c o)
unfolding add_found
includes-add_found c none seen = ground arith
includes-add_found c (some d) seen = elim (Bool-cases (includes Capability-discrete d seen)) [
  | inl h ↦ rw h (ground (arith, h, same_iff Capability-discrete c d))
  | inr h ↦ rw h (includes-snoc c d seen)
]

includes-sanitize_items :
    (c : Capability) (seen : List Capability) (xs : Items)
    → includes Capability-discrete c (sanitize_items seen xs)
      ≡ (includes Capability-discrete c seen || mentions_items c xs)
unfolding sanitize_items mentions_items
includes-sanitize_items c seen Items.nil = ground arith
includes-sanitize_items c seen (Items.cons (Json.string s) xs) =
    includes-sanitize_items c (add_found (of_key s) seen) xs
    ∙ ground (arith, includes-add_found c (of_key s) seen, str_eq-key c s)
includes-sanitize_items c seen (Items.cons _ xs) = includes-sanitize_items c seen xs

-- Sanitizing an untrusted value keeps exactly the capabilities whose key it lists as a string.
pub includes-sanitize_capabilities :
    (c : Capability) (input : Json)
    → includes Capability-discrete c (sanitize_capabilities input) ≡ mentions c input
unfolding sanitize_capabilities mentions includes
includes-sanitize_capabilities c (Json.array xs) = includes-sanitize_items c [] xs
includes-sanitize_capabilities c _ = refl

assignable_same :
    (c d : Capability) → same Capability-discrete c d ≡ true → is_assignable c ≡ is_assignable d
assignable_same c d h = ap (λ x. is_assignable x) ((same_iff Capability-discrete c d).0 h)

includes-keep_assignable :
    (c : Capability) (cs : List Capability)
    → includes Capability-discrete c (keep_assignable cs)
      ≡ (is_assignable c && includes Capability-discrete c cs)
unfolding includes keep_assignable
includes-keep_assignable c [] = ground arith
includes-keep_assignable c (d ∷ cs) = elim (Bool-cases (is_assignable d)) [
  | inl h ↦ rw h (ground (arith, includes-keep_assignable c cs, assignable_same c d))
  | inr h ↦ rw h (ground (arith, includes-keep_assignable c cs, assignable_same c d))
]

-- A technician assignment keeps those of them that are not `users:manage`, and no others.
pub includes-sanitize_technician :
    (c : Capability) (input : Json)
    → includes Capability-discrete c (sanitize_technician_capabilities input)
      ≡ (is_assignable c && mentions c input)
unfolding sanitize_technician_capabilities
includes-sanitize_technician c input =
    includes-keep_assignable c (sanitize_capabilities input)
    ∙ ap (λ b. is_assignable c && b) (includes-sanitize_capabilities c input)
