-- ===== src/Capabilities.antt =====
-- internal/backend/backend.go: the capabilities of a backend and their normal form.
use unified_ephemeral_runner.Common.{
  String, ◌≡◌, refl, ◌∙◌, Bool, true, false, none, some, List, [], ◌∷◌, arith, ◌==◌, string_eq,
  nat_eq, pair_eq, Dict, get, if◌then◌else◌, eqb, ltb, any,
}
use Prim.Native.Char.{code}
use unified_ephemeral_runner.Common.Sorting.{insert, sort}
use unified_ephemeral_runner.Common.Text.{to_lower, trim_space}

abbrev platform_capability_aliases : Dict String String
platform_capability_aliases =
    ("linux", "os:linux")
    ∷ ("windows", "os:windows")
    ∷ ("macos", "os:macos")
    ∷ ("darwin", "os:macos")
    ∷ ("amd64", "arch:amd64")
    ∷ ("x64", "arch:amd64")
    ∷ ("x86_64", "arch:amd64")
    ∷ ("arm64", "arch:arm64")
    ∷ ("aarch64", "arch:arm64")
    ∷ []

-- CanonicalCapability
unfoldable pub canonical_capability : String → String
canonical_capability value =
    let capability = to_lower (trim_space value) in
    if capability == "" then "" else elim (get platform_capability_aliases capability) [
      | some canonical ↦ canonical
      | none ↦ capability
    ]

-- The order of strings in Go.
unfoldable pub string_less : String → String → Bool
string_less String.[] String.[] = false
string_less String.[] (String.◌∷◌ d t) = true
string_less (String.◌∷◌ c s) String.[] = false
string_less (String.◌∷◌ c s) (String.◌∷◌ d t) =
    let rest = string_less s t in if eqb (code c) (code d) then rest else ltb (code c) (code d)

abbrev pub contains_capability : List String → String → Bool
contains_capability capabilities capability = any (λ c. c == capability) capabilities

-- The loop of NormalizeCapabilities, from the capabilities seen.
unfoldable pub distinct : List String → List String → List String
distinct seen [] = []
distinct seen (value ∷ values) =
    let capability = canonical_capability value in
    let skipped = distinct seen values in
    let rest = distinct (capability ∷ seen) values in
    if capability == ""
    then skipped
    else if contains_capability seen capability
    then skipped
    else capability ∷ rest

-- NormalizeCapabilities
unfoldable pub normalize_capabilities : List String → List String
unfolding string_less distinct sort insert
normalize_capabilities values = sort string_less (distinct [] values)

-- Some value has the capability as its canonical form.
unfoldable pub names : List String → String → Bool
names values capability = any (λ value. canonical_capability value == capability) values

any-insert :
    (p : String → Bool) (less : String → String → Bool) (x : String) (xs : List String)
    → any p (insert less x xs) ≡ (if p x then true else any p xs)
unfolding insert
any-insert p less x [] = refl
any-insert p less x (y ∷ xs) = ground (arith, any-insert p less x xs)

any-sort :
    (p : String → Bool) (less : String → String → Bool) (xs : List String)
    → any p (sort less xs) ≡ any p xs
unfolding sort
any-sort p less [] = refl
any-sort p less (x ∷ xs) = ground (arith, any-insert p less x (sort less xs), any-sort p less xs)

any-distinct :
    (seen values : List String) (capability : String)
    → (capability == "") ≡ false
    → (if contains_capability seen capability
        then true
        else contains_capability (distinct seen values) capability)
      ≡ (if contains_capability seen capability then true else names values capability)
unfolding distinct names
any-distinct seen [] capability named = refl
any-distinct seen (value ∷ values) capability named = ground (
  arith,
  any-distinct seen values capability named,
  any-distinct (canonical_capability value ∷ seen) values capability named,
  string_eq.agrees_iff (canonical_capability value) "",
  string_eq.agrees_iff (canonical_capability value) capability,
)

-- The normal form has exactly the canonical forms of the values, but for the empty one.
pub contains-normalize_capabilities :
    (values : List String) (capability : String)
    → (capability == "") ≡ false
    → contains_capability (normalize_capabilities values) capability ≡ names values capability
unfolding normalize_capabilities
contains-normalize_capabilities values capability named =
    any-sort (λ c. c == capability) string_less (distinct [] values)
    ∙ any-distinct [] values capability named
