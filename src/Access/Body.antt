-- ===== src/Access/Body.antt =====
-- core/security.py: `_parse_content_length` and `ensure_request_body_within_limit`.
use langgraph_agent_stack.Prelude.{
  ltb, leb, nat_beq, if◌then◌else◌, le→leb, Bool-cases, length, length-append, mem, Text, text,
  strip, nonempty, Result, ok, err, ℕ, zero, suc, ◌+◌, ◌-◌, ◌*◌, ◌≤◌, ◌≡◌, refl, ◌∙◌, inl, inr,
  Bool, true, false, ◌&&◌, Option, none, some, List, [], ◌∷◌, ◌++◌, arith, text_eq, nat_eq,
}
use langgraph_agent_stack.Prelude.Int.{ℤ, pos, negsuc}
use mathlib.Core.List.{append-nil, append_assoc}
use langgraph_agent_stack.Access.{Request}

abbrev pub is_digit : ℕ → Bool
is_digit c = leb 48 c && leb c 57

-- The digits of Python's `int(s)`; one underscore may stand between two digits. `after` says whether
-- a digit stands just before.
abbrev pub parse_digits : Bool → ℕ → Text → Option ℕ
parse_digits after n [] = if after then some n else none
parse_digits after n (c ∷ s) =
    let next = parse_digits true (n * 10 + (c - 48)) s in
    let skip = parse_digits false n s in
    if is_digit c then next else if after && nat_beq c 95 then skip else none

abbrev pub negated : Option ℕ → Option ℤ
negated none = none
negated (some zero) = some (pos 0)
negated (some (suc n)) = some (negsuc n)

abbrev pub unsigned : Option ℕ → Option ℤ
unsigned none = none
unsigned (some n) = some (pos n)

abbrev pub parse_signed : Text → Option ℤ
parse_signed [] = none
parse_signed (c ∷ s) =
    if nat_beq c 45
    then negated (parse_digits false 0 s)
    else if nat_beq c 43
    then unsigned (parse_digits false 0 s)
    else unsigned (parse_digits false 0 (c ∷ s))

-- `int(s)` on the characters of a header
unfoldable pub parse_int : Text → Option ℤ
unfolding strip
parse_int s = parse_signed (strip s)

pub data BodyError : Type 0 where
  invalid_content_length body_too_large : BodyError

abbrev pub or_invalid : Option ℤ → Result BodyError (Option ℤ)
or_invalid none = err invalid_content_length
or_invalid (some n) = ok (some n)

unfoldable pub parse_content_length : Option Text → Result BodyError (Option ℤ)
unfolding strip parse_int
parse_content_length none = ok none
parse_content_length (some s) = if nonempty (strip s) then or_invalid (parse_int s) else ok none

abbrev pub body_methods : List Text
body_methods = text "POST" ∷ text "PUT" ∷ text "PATCH" ∷ []

-- `max_bytes < z`
abbrev pub exceeds : ℕ → ℤ → Bool
exceeds max_bytes (pos n) = ltb max_bytes n
exceeds max_bytes (negsuc n) = false

-- `async for chunk in request.stream()`
unfoldable pub read_capped : ℕ → Text → List Text → Result BodyError Text
read_capped max_bytes body [] = ok body
read_capped max_bytes body (chunk ∷ chunks) =
    let rest = read_capped max_bytes (body ++ chunk) chunks in
    if ltb max_bytes (length (body ++ chunk)) then err body_too_large else rest

abbrev pub read_again : Request → Result BodyError Text → Result BodyError Request
read_again request (err e) = err e
read_again request (ok body) = ok (record request { chunks = body ∷ [] })

abbrev pub declared_or_read : Request → ℕ → Result BodyError (Option ℤ) → Result BodyError Request
declared_or_read request max_bytes (err e) = err e
declared_or_read request max_bytes (ok (some declared)) =
    if exceeds max_bytes declared then err body_too_large else ok request
declared_or_read request max_bytes (ok none) =
    read_again request (read_capped max_bytes [] request.chunks)

-- `ensure_request_body_within_limit`
unfoldable pub ensure_within_limit : Request → ℕ → Result BodyError Request
unfolding parse_content_length read_capped
ensure_within_limit request max_bytes =
    if mem request.method body_methods
    then declared_or_read request max_bytes
        (parse_content_length (request.headers (text "content-length")))
    else ok request

abbrev pub concat : List Text → Text
concat [] = []
concat (chunk ∷ chunks) = chunk ++ concat chunks

too_long :
    (max_bytes : ℕ) (body chunk rest : Text)
    → ltb max_bytes (length (body ++ chunk)) ≡ true
    → leb (length (body ++ (chunk ++ rest))) max_bytes ≡ false
too_long max_bytes body chunk rest over =
    ground (
      arith,
      length-append body chunk,
      length-append chunk rest,
      length-append body (chunk ++ rest),
    )

read_capped-after :
    (max_bytes : ℕ) (body : Text) (chunks : List Text)
    → length body ≤ max_bytes
    → read_capped max_bytes body chunks ≡ (
        if leb (length (body ++ concat chunks)) max_bytes
        then ok (body ++ concat chunks)
        else err body_too_large)
unfolding read_capped
read_capped-after max_bytes body [] fits =
    rw (append-nil body, le→leb (length body) max_bytes fits) refl
read_capped-after max_bytes body (chunk ∷ chunks) fits =
    elim (Bool-cases (ltb max_bytes (length (body ++ chunk)))) [
      | inl over ↦ rw (over, too_long max_bytes body chunk (concat chunks) over) refl
      | inr within ↦ rw (within) (
          read_capped-after max_bytes (body ++ chunk) chunks (ground arith)
          ∙ rw (append_assoc body chunk (concat chunks)) refl)
    ]

-- Reading chunk by chunk with the cap comes to the same as reading the whole body first and then
-- looking at its length, however the body is cut into chunks.
pub read_capped-concat :
    (max_bytes : ℕ) (chunks : List Text)
    → read_capped max_bytes [] chunks
      ≡ (if leb (length (concat chunks)) max_bytes then ok (concat chunks) else err body_too_large)
read_capped-concat max_bytes chunks = read_capped-after max_bytes [] chunks (omega arith)
