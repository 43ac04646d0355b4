-- ===== src/Metadata/Keys.antt =====
-- Lists of keys without repetition, as metadata.rs keeps them.
use stellabill_contracts.Prelude.{
  ◌+◌, ◌≡◌, refl, ◌≤◌, arith, Bool, true, false, String, List, [], ◌∷◌, ◌++◌, not, ◌==◌, ◌&&◌, ◌||◌,
  string_eq, length,
}
use stellabill_contracts.Metadata.{has_key, remove_key}

unfoldable pub is_distinct : List String → Bool
unfolding has_key
is_distinct [] = true
is_distinct (k ∷ ks) = not (has_key k ks) && is_distinct ks

pub has_key-append :
    (x k : String) (ks : List String) → has_key x (ks ++ k ∷ []) ≡ has_key x ks || k == x
unfolding has_key
has_key-append x k [] = ground arith
has_key-append x k (j ∷ ks) = ground (arith, has_key-append x k ks)

pub is_distinct-append :
    (k : String) (ks : List String)
    → is_distinct ks ≡ true
    → has_key k ks ≡ false
    → is_distinct (ks ++ k ∷ []) ≡ true
unfolding is_distinct has_key
is_distinct-append k [] d h = refl
is_distinct-append k (j ∷ ks) d h = ground (
  arith,
  has_key-append j k ks,
  string_eq.same_iff j k,
  string_eq.same_iff k j,
  is_distinct-append k ks (ground arith) (ground arith),
)

pub has_key-remove :
    (x k : String) (ks : List String)
    → is_distinct ks ≡ true
    → has_key x (remove_key k ks) ≡ has_key x ks && not (k == x)
unfolding is_distinct has_key remove_key
has_key-remove x k [] d = refl
has_key-remove x k (j ∷ ks) d = ground (
  arith,
  string_eq.same_iff j k,
  string_eq.same_iff j x,
  string_eq.same_iff k x,
  has_key-remove x k ks (ground arith),
)

pub is_distinct-remove :
    (k : String) (ks : List String) → is_distinct ks ≡ true → is_distinct (remove_key k ks) ≡ true
unfolding is_distinct remove_key
is_distinct-remove k [] d = refl
is_distinct-remove k (j ∷ ks) d =
    ground (arith, has_key-remove j k ks (ground arith), is_distinct-remove k ks (ground arith))

pub length-append : (k : String) (ks : List String) → length (ks ++ k ∷ []) ≡ length ks + 1
unfolding length
length-append k [] = refl
length-append k (j ∷ ks) = omega (arith, length-append k ks)

pub length-remove : (k : String) (ks : List String) → length (remove_key k ks) ≤ length ks
unfolding length remove_key
length-remove k [] = omega arith
length-remove k (j ∷ ks) = ground (arith, length-remove k ks)
