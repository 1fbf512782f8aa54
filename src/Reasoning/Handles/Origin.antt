-- ===== src/Reasoning/Handles/Origin.antt =====
-- Which request a handle of src/sanuvia/application/reasoning/handles.py comes from.
use Prim.Native.Char.{Char}
use Prim.Native.String.{◌++◌ as append_text, ◌∷◌}
use Prim.Native.String.append
use mathlib.Core.Option
use sanuvia_reasoning_engine.Prelude.{
  ℕ, String, ◌≡◌, ◌≢◌, refl, sym, ap, ◌∙◌, inl, inr, false, none, some, arith,
}
use sanuvia_reasoning_engine.Prelude.Tests.{Bool-cases, Option-cases, ◌==◌, string_eq}
use sanuvia_reasoning_engine.Prelude.Numerals.{decimal}
use sanuvia_reasoning_engine.Reasoning.Handles.{HandleTable}
use sanuvia_reasoning_engine.Reasoning.Handles.Request.{
  mint, at_separator, request_id_of, classify_unknown_evidence_handle, cross_request,
}

-- A request's id ends before the first separator: the id has none, and does not end in half of one.
abbrev pub IsSeparable : String → Type 0
IsSeparable rid = request_id_of (append_text rid ":") ≡ none

front_of :
    (c d : Char) (t t' : String)
    → request_id_of (c ∷ d ∷ t) ≡ none
    → (request_id_of (d ∷ t) ≡ none)
      × (request_id_of (c ∷ d ∷ t') ≡ Option.map (λ front. c ∷ front) (request_id_of (d ∷ t')))
unfolding request_id_of at_separator
front_of c d t t' h = elim (Bool-cases ((c ∷ d ∷ "") == "::")) [
  | inl t ↦ cc (rw t at h)
  | inr f ↦ elim (Option-cases (request_id_of (d ∷ t))) [
    | inl q ↦ (q, rw f)
    | inr (x, q) ↦ cc (rw (f, q) at h)
  ]
]

separated : (tail : String) → append_text "::" tail ≡ ":" ∷ ":" ∷ tail
separated tail =
    append.cons ":" ":" tail
    ∙ ap (λ t. ":" ∷ t) (append.cons ":" "" tail ∙ ap (λ t. ":" ∷ t) (append.nil tail))

-- A longer text with the id in front has the id before its first separator.
request_id_of-append :
    (rid tail : String)
    → request_id_of (append_text rid ":") ≡ none
    → request_id_of (append_text rid (":" ∷ ":" ∷ tail)) ≡ some rid
unfolding request_id_of at_separator
request_id_of-append String.[] tail h = rw append.nil refl
request_id_of-append (c ∷ String.[]) tail h =
    let short = ap request_id_of (append.cons c "" ":" ∙ ap (λ t. c ∷ t) (append.nil ":")) in
    ap request_id_of
      (append.cons c "" (":" ∷ ":" ∷ tail) ∙ ap (λ t. c ∷ t) (append.nil (":" ∷ ":" ∷ tail)))
    ∙ (front_of c ":" "" (":" ∷ tail) (sym short ∙ h)).1
request_id_of-append (c ∷ d ∷ s) tail h =
    let long = ":" ∷ ":" ∷ tail in
    let spread = λ (t : String). append.cons c (d ∷ s) t ∙ ap (λ u. c ∷ u) (append.cons d s t) in
    let (rest, step) =
      front_of c d (append_text s ":") (append_text s long)
        (sym (ap request_id_of (spread ":")) ∙ h) in
    ap request_id_of (spread long)
    ∙ step
    ∙ ap (Option.map (λ front. c ∷ front)) (
        sym (ap request_id_of (append.cons d s long))
        ∙ request_id_of-append (d ∷ s) tail (ap request_id_of (append.cons d s ":") ∙ rest))

request_id_of-mint :
    (rid prefix : String) (n : ℕ) → IsSeparable rid → request_id_of (mint rid prefix n) ≡ some rid
unfolding mint
request_id_of-mint rid prefix n h =
    let tail = append_text prefix (decimal n) in
    ap request_id_of (ap (append_text rid) (separated tail)) ∙ request_id_of-append rid tail h

classify_other :
    (t : HandleTable) (handle rid : String)
    → request_id_of handle ≡ some rid
    → (rid == t.request_id) ≡ false
    → classify_unknown_evidence_handle t handle ≡ cross_request
unfolding classify_unknown_evidence_handle
classify_other t handle rid found apart = ground arith

some-injective : {a b : String} → some a ≡ some b → a ≡ b
some-injective h = ground arith

-- For a request whose id has no separator and does not end in half of one, the request of a minted handle is
-- read back from it, whatever its prefix and number are; the table of any other request classifies that
-- handle as one of another request; and a handle of another such request is a different text.
pub mint-request_id_of :
    (rid prefix : String) (n : ℕ)
    → IsSeparable rid
    → (request_id_of (mint rid prefix n) ≡ some rid)
      × ((t : HandleTable)
          → rid ≢ t.request_id
          → classify_unknown_evidence_handle t (mint rid prefix n) ≡ cross_request)
      × ((other prefix' : String) (k : ℕ)
          → IsSeparable other
          → rid ≢ other
          → mint rid prefix n ≢ mint other prefix' k)
mint-request_id_of rid prefix n h =
    let found = request_id_of-mint rid prefix n h in
    (
      found,
      λ t different. elim (Bool-cases (rid == t.request_id)) [
        | inl same ↦ absurd (different ((string_eq.beq_iff rid t.request_id).0 same))
        | inr apart ↦ classify_other t (mint rid prefix n) rid found apart
      ],
      λ other prefix' k g different same. different (
          some-injective
            (sym found ∙ ap request_id_of same ∙ request_id_of-mint other prefix' k g)),
    )
