-- ===== src/Base/Pattern.antt =====
-- The regular expressions that the schemas share, as tests on code points
-- (agent-service/app/schemas/tools.py).
use Prim.Native.Nat.{ℕ}
use mathlib.Core.Bool.{Bool, true, false, ◌&&◌, ◌||◌}
use mathlib.Core.List.{[], ◌∷◌}
use productline_agent.Base.Tests.{leb, nat_beq, ◌==◌}
use productline_agent.Base.Lists.{length, all_of, drop, take}
use productline_agent.Base.Texts.{Text, codes, strip, text_eq}

abbrev pub is_upper : ℕ → Bool
is_upper c = leb b'A' c && leb c b'Z'

abbrev pub is_lower : ℕ → Bool
is_lower c = leb b'a' c && leb c b'z'

abbrev pub is_digit : ℕ → Bool
is_digit c = leb b'0' c && leb c b'9'

-- `[A-Z0-9][A-Z0-9-]*` against a whole text.
unfoldable pub is_code : Text → Bool
is_code [] = false
is_code (c ∷ s) =
    (is_upper c || is_digit c) && all_of (λ d. is_upper d || is_digit d || nat_beq d b'-') s

-- `PREFIX[A-Z0-9][A-Z0-9-]*` against a whole text.
unfoldable pub has_prefix : Text → Text → Bool
unfolding is_code
has_prefix prefix s = (take (length prefix) s == prefix) && is_code (drop (length prefix) s)

-- `[A-Z]+-[A-Z0-9][A-Z0-9-]*`: some dash behind capital letters alone ends the prefix.
unfoldable pub is_prefixed : Bool → Text → Bool
is_prefixed seen [] = false
is_prefixed seen (c ∷ s) =
    let rest = is_prefixed true s in (is_upper c && rest) || (nat_beq c b'-' && seen && is_code s)

abbrev pub length_between : ℕ → ℕ → Text → Bool
length_between low high s = leb low (length s) && leb (length s) high

-- `OrderIdentifier`, `TaskIdentifier` and `BusinessIdentifier`.
unfoldable pub is_order_id : Text → Bool
unfolding has_prefix
is_order_id s = length_between 1 128 s && has_prefix (codes "ORDER-") s

unfoldable pub is_task_id : Text → Bool
unfolding has_prefix
is_task_id s = length_between 1 128 s && has_prefix (codes "TASK-") s

unfoldable pub is_business_id : Text → Bool
unfolding is_prefixed is_code
is_business_id s = length_between 1 128 s && is_prefixed false s

-- A text field with length limits under `str_strip_whitespace`: its ends carry no white space.
unfoldable pub is_field : ℕ → ℕ → Text → Bool
is_field low high s = length_between low high s && (strip s == s)

-- `[p]+(sep [p]+)*` against a whole text, inside a group once `started`.
unfoldable pub is_groups : (ℕ → Bool) → ℕ → Bool → Text → Bool
is_groups p sep started [] = started
is_groups p sep started (c ∷ s) =
    let inside = is_groups p sep true s in
    let between = is_groups p sep false s in
    (p c && inside) || (nat_beq c sep && started && between)
