-- ===== src/Install/Entries.antt =====
-- The choice of a boot menu entry in src/autokernel/bootloader.py.
use autokernel.Base.{
  Bool, true, false, not, ◌&&◌, List, [], ◌∷◌, ◌++◌, Option, none, some, Str, str, ◌≡◌, refl, inl,
  inr, keep, any, member, same, same_refl, eq_of_same, sym, ends_with, Bool-cases, arith,
}
use autokernel.World.Waves.{contains_text}
use autokernel.Install.Bootloader.{grub_entries, grub_entry_for_release, first_of}

-- An entry that boots the release, and not in recovery mode.
unfoldable pub boots : Str → Str → Bool
unfolding contains_text
boots release e =
    ends_with e (str "with Linux " ++ release) && not (contains_text (str "recovery mode") e)

unfoldable pub is_nested : Str → Bool
unfolding contains_text
is_nested e = contains_text (str ">") e

-- A right choice among the entries: one that boots the release, nested if there is a nested one.
abbrev pub IsChosen : Str → List Str → Option Str → Type 0
IsChosen release entries none = any (boots release) entries ≡ false
IsChosen release entries (some e) =
    (member e entries ≡ true)
    × ((boots release e ≡ true) × (is_nested e ≡ any (λ x. boots release x && is_nested x) entries))

abbrev first : List Str → Option Str
first [] = none
first (x ∷ xs) = some x

-- The first element that passes the test, if there is one.
abbrev IsFirst : (Str → Bool) → List Str → Option Str → Type 0
IsFirst p entries none = any p entries ≡ false
IsFirst p entries (some e) = (member e entries ≡ true) × (p e ≡ true)

IsFirst-cons :
    (p : Str → Bool) (x : Str) (entries : List Str) (o : Option Str)
    → p x ≡ false
    → IsFirst p entries o
    → IsFirst p (x ∷ entries) o
IsFirst-cons p x entries none off h = rw (off, h) refl
IsFirst-cons p x entries (some e) off (h, k) = (ground (arith, h), k)

first-keep : (p : Str → Bool) (entries : List Str) → IsFirst p entries (first (keep p entries))
first-keep p [] = refl
first-keep p (x ∷ entries) = elim (Bool-cases (p x)) [
  | inl on ↦ rw on (rw (same_refl x) refl, on)
  | inr off ↦ rw off (IsFirst-cons p x entries _ off (first-keep p entries))
]

keep-keep : (p q : Str → Bool) (xs : List Str) → keep q (keep p xs) ≡ keep (λ x. p x && q x) xs
keep-keep p q [] = refl
keep-keep p q (x ∷ xs) = ground (arith, keep-keep p q xs)

any-member :
    (p : Str → Bool) (e : Str) (xs : List Str) → member e xs ≡ true → p e ≡ true → any p xs ≡ true
any-member p e [] h k = cc
any-member p e (x ∷ xs) h k = elim (Bool-cases (same e x)) [
  | inl eq ↦ rw (sym (eq_of_same e x eq), k) refl
  | inr ne ↦ ground (arith, any-member p e xs)
]

module _ (release : Str) (entries : List Str) where
  abbrev both : Str → Bool
  both x = boots release x && is_nested x

  first_of-IsChosen :
      (nested hits : List Str)
      → IsFirst both entries (first nested)
      → IsFirst (boots release) entries (first hits)
      → IsChosen release entries (first_of nested hits)
  first_of-IsChosen (n ∷ nested) hits (h, k) g =
      (h, (ground arith, rw (any-member both n entries h k) (ground arith)))
  first_of-IsChosen [] (e ∷ hits) h (g, k) = (g, (k, ground (arith, any-member both e entries)))
  first_of-IsChosen [] [] h g = g

-- The entry that is set for one boot is one of the menu that boots the release, not in recovery
-- mode, and nested in a submenu if there is such a nested one; where none is found, there is none.
pub grub_entry_for_release-IsChosen :
    (release text : Str)
    → IsChosen release (grub_entries text) (grub_entry_for_release release text)
unfolding grub_entry_for_release boots is_nested
grub_entry_for_release-IsChosen release text =
    let entries = grub_entries text in
    let hits = keep (boots release) entries in
    let nested = first-keep (both release entries) entries in
    first_of-IsChosen release entries (keep is_nested hits) hits
      (rw (keep-keep (boots release) is_nested entries) nested) (first-keep (boots release) entries)
