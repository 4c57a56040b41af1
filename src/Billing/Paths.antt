-- ===== src/Billing/Paths.antt =====
-- src/modules/billing/billing-access-paths.util.ts: the paths that stay open to a firm whose
-- billing has lapsed. A URL is the list of its character codes.
pub mod Laws
use Prim.Native.Char.{code}
use Prim.Native.String.{String}
use mtd_backend.Common.{
  ℕ, Bool, true, false, Option, none, some, List, [], ◌∷◌, ◌++◌, ◌||◌, ◌&&◌, ◌==◌, if◌then◌else◌,
}

abbrev pub codes : String → List ℕ
codes String.[] = []
codes (String.◌∷◌ c s) = code c ∷ codes s

-- `url.split('?')[0]`
unfoldable pub before_query : List ℕ → List ℕ
before_query [] = []
before_query (c ∷ url) = let rest = before_query url in if c == b'?' then [] else c ∷ rest

same_codes : List ℕ → List ℕ → Bool
same_codes [] [] = true
same_codes (c ∷ s) (d ∷ t) = c == d && same_codes s t
same_codes _ _ = false

-- `/…$/.test(path)` for a fixed text.
ends_with : List ℕ → List ℕ → Bool
ends_with text [] = same_codes text []
ends_with text (c ∷ path) = same_codes text (c ∷ path) || ends_with text path

-- The same with an optional slash at the end, `\/?$`.
abbrev ends_with_slash : List ℕ → List ℕ → Bool
ends_with_slash text path = ends_with text path || ends_with (text ++ b'/' ∷ []) path

exempt_path : List ℕ → Bool
exempt_path path =
    (ends_with_slash (codes "/billing/checkout") path
      || ends_with_slash (codes "/billing/portal") path
      || ends_with_slash (codes "/billing/quote") path)
    || (ends_with_slash (codes "/auth/logout") path
        || ends_with_slash (codes "/auth/refresh") path
        || ends_with_slash (codes "/auth/session") path
        || ends_with_slash (codes "/auth/profile") path)

unfoldable pub is_billing_exempt_path : Option (List ℕ) → Bool
unfolding exempt_path ends_with same_codes before_query
is_billing_exempt_path none = false
is_billing_exempt_path (some []) = false
is_billing_exempt_path (some (c ∷ url)) = exempt_path (before_query (c ∷ url))
