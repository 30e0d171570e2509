-- ===== src/Server/Loop.antt =====
-- src/server.rs: the loop that takes the frames out of a buffer as bytes arrive.
use miuturn.Common.{
  ℕ, zero, suc, ◌≤◌, ◌≡◌, refl, ap, sym, ◌∙◌, List, [], ◌∷◌, ◌++◌, Option, none, some, length,
  arith, length-append, inl, inr, Option-cases,
}
use miuturn.Server.Frame.{extract_stream_frame, frames}
use miuturn.Server.Framing.{extract_stream_frame-append, extract_shorter}

none_left :
    (fuel : ℕ) (buf : List ℕ) → (extract_stream_frame buf).1 ≡ none → frames fuel buf ≡ ([], buf)
unfolding frames
none_left zero buf e = refl
none_left (suc fuel) buf e = ground (arith, e)

one_more :
    (fuel : ℕ) (buf frame : List ℕ)
    → (extract_stream_frame buf).1 ≡ some frame
    → frames (suc fuel) buf ≡ (
      frame ∷ (frames fuel (extract_stream_frame buf).0).0,
      (frames fuel (extract_stream_frame buf).0).1,
    )
unfolding frames
one_more fuel buf frame e = ground (arith, e)

-- The loop ends: with a step for each byte, no frame is left that could be split off.
pub frames-none :
    (fuel : ℕ) (buf : List ℕ)
    → length buf ≤ fuel
    → (extract_stream_frame (frames fuel buf).1).1 ≡ none
frames-none zero buf h = elim (Option-cases (extract_stream_frame buf).1) [
  | inl e ↦ rw (none_left zero buf e) e
  | inr (frame, e) ↦ absurd (omega (arith, extract_shorter buf frame e))
]
frames-none (suc fuel) buf h = elim (Option-cases (extract_stream_frame buf).1) [
  | inl e ↦ rw (none_left (suc fuel) buf e) e
  | inr (frame, e) ↦
      rw (one_more fuel buf frame e)
        (frames-none fuel (extract_stream_frame buf).0 (omega (arith, extract_shorter buf frame e)))
]

too_short : (buf : List ℕ) → length buf ≤ 0 → (extract_stream_frame buf).1 ≡ none
too_short buf h = elim (Option-cases (extract_stream_frame buf).1) [
  | inl e ↦ e
  | inr (frame, e) ↦ absurd (omega (arith, extract_shorter buf frame e))
]

enough : (n k : ℕ) (buf : List ℕ) → length buf ≤ n → length buf ≤ k → frames n buf ≡ frames k buf
enough zero k buf h g = let e = too_short buf h in none_left zero buf e ∙ sym (none_left k buf e)
enough (suc n) zero buf h g =
    let e = too_short buf g in none_left (suc n) buf e ∙ sym (none_left zero buf e)
enough (suc n) (suc k) buf h g = elim (Option-cases (extract_stream_frame buf).1) [
  | inl e ↦ none_left (suc n) buf e ∙ sym (none_left (suc k) buf e)
  | inr (frame, e) ↦
      let less = extract_shorter buf frame e in
      let same =
        enough n k (extract_stream_frame buf).0 (omega (arith, less)) (omega (arith, less)) in
      one_more n buf frame e
      ∙ (ap (λ (r : List (List ℕ) × List ℕ). (frame ∷ r.0, r.1)) same
          ∙ sym (one_more k buf frame e))
]

abbrev Frames : Type 0
Frames = List (List ℕ) × List ℕ

-- Some frames, and then those of what they left with more bytes.
abbrev and_then : ℕ → List ℕ → Frames → Frames
and_then j more r = (r.0 ++ (frames j (r.1 ++ more)).0, (frames j (r.1 ++ more)).1)

append_none :
    (n k j : ℕ) (buf more : List ℕ)
    → length (buf ++ more) ≤ n
    → length ((frames k buf).1 ++ more) ≤ j
    → (extract_stream_frame buf).1 ≡ none
    → frames n (buf ++ more) ≡ and_then j more (frames k buf)
append_none n k j buf more h f e =
    let alone = none_left k buf e in
    let size = ap (λ (r : Frames). length (r.1 ++ more)) alone in
    enough n j (buf ++ more) h (omega (arith, f, size)) ∙ sym (ap (and_then j more) alone)

-- However the bytes of a stream arrive, the frames are the same: those of the bytes that came
-- first, and then those of what they left with the bytes that came later. Each loop has a step for
-- each byte.
pub frames-append :
    (n k j : ℕ) (buf more : List ℕ)
    → length (buf ++ more) ≤ n
    → length buf ≤ k
    → length ((frames k buf).1 ++ more) ≤ j
    → frames n (buf ++ more) ≡ (
      (frames k buf).0 ++ (frames j ((frames k buf).1 ++ more)).0,
      (frames j ((frames k buf).1 ++ more)).1,
    )
frames-append n zero j buf more h g f = append_none n zero j buf more h f (too_short buf g)
frames-append zero (suc k) j buf more h g f =
    append_none zero (suc k) j buf more h f
      (too_short buf (omega (arith, h, length-append buf more)))
frames-append (suc n) (suc k) j buf more h g f = elim (Option-cases (extract_stream_frame buf).1) [
  | inl e ↦ append_none (suc n) (suc k) j buf more h f e
  | inr (frame, e) ↦
      let rest : List ℕ = (extract_stream_frame buf).0 in
      let one = one_more k buf frame e in
      let less = extract_shorter buf frame e in
      let size = ap (λ (r : Frames). length (r.1 ++ more)) one in
      let later =
        (extract_stream_frame-append buf rest frame more
          (ap (λ (x : Option (List ℕ)). (rest, x)) e)).0 in
      let again =
        frames-append n k j rest more
          (omega (arith, h, less, length-append buf more, length-append rest more))
          (omega (arith, g, less)) (omega (arith, f, size)) in
      one_more n (buf ++ more) frame (ap (λ (r : List ℕ × Option (List ℕ)). r.1) later)
      ∙ (ap (λ (r : List ℕ × Option (List ℕ)). (frame ∷ (frames n r.0).0, (frames n r.0).1)) later
          ∙ (ap (λ (r : Frames). (frame ∷ r.0, r.1)) again ∙ sym (ap (and_then j more) one)))
]
