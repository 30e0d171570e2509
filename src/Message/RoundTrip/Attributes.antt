-- ===== src/Message/RoundTrip/Attributes.antt =====
-- `Attribute::decode` after `Attribute::encode`, and the loop of `Message::parse` over a list.
use miuturn.Common.{
  ℕ, zero, suc, ◌+◌, ◌-◌, ◌≤◌, ◌<◌, ◌^◌, ◌%◌, ◌≡◌, refl, inl, inr, List, [], ◌∷◌, ◌++◌, none, some,
  true, false, arith,
}
use miuturn.Common.{
  ltb, length, drop, replicate, slice, All, take_front, drop_front, length-append, length-replicate,
  length-take, length-drop, drop-slice, append_assoc, append-nil, Option-cases,
}
use miuturn.Message.Types.{Attribute}
use miuturn.Message.Attribute.{decode, encode, padding}
use miuturn.Message.Codec.{Scan, finished, refused, out_of_fuel, scan, encode_attributes}

-- An attribute whose type and length are `u16`s.
abbrev pub IsAttribute : Attribute → Type 0
IsAttribute a = (a.attr_type < 2 ^ 16) × (length a.value < 2 ^ 16)

-- The bytes that an attribute takes on the wire.
abbrev pub wire_size : Attribute → ℕ
wire_size a = length a.value + 4 + padding (length a.value + 4)

pub length-encode_attribute : (a : Attribute) → IsAttribute a → length (encode a) ≡ wire_size a
unfolding encode
length-encode_attribute a h = omega (
  arith,
  length-append a.value (replicate (padding (length a.value % 2 ^ 16)) 0),
  length-replicate {A = ℕ} (padding (length a.value % 2 ^ 16)) 0,
)

pub decode-encode_attribute :
    (a : Attribute) (rest : List ℕ) → IsAttribute a → decode (encode a ++ rest) ≡ some a
unfolding decode encode
decode-encode_attribute a rest h =
    let size : ℕ = length a.value % 2 ^ 16 in
    let zeros : List ℕ = replicate (padding size) 0 in
    let whole : size ≡ length a.value = omega arith in
    ground (
      arith,
      whole,
      append_assoc a.value zeros rest,
      take_front (length a.value) a.value (zeros ++ rest) refl,
      length-append a.value (zeros ++ rest),
    )

-- The same loop over the bytes that are left, with no offsets.
pub scan_rest : ℕ → List ℕ → List Attribute → Scan
scan_rest zero rest attributes = out_of_fuel
scan_rest (suc fuel) rest attributes = elim (ltb 0 (length rest)) [
  | false ↦ finished attributes
  | true ↦ elim (ltb (length rest) 4) [
    | true ↦ refused
    | false ↦ elim (decode rest) [
      | none ↦ finished attributes
      | some attr ↦ elim (ltb (length rest) (wire_size attr)) [
        | true ↦ refused
        | false ↦ scan_rest fuel (drop (wire_size attr) rest) (attributes ++ attr ∷ [])
      ]
    ]
  ]
]

pub length-slice :
    {A : Type 0} (xs : List A) (a b : ℕ) → b ≤ length xs → length (slice xs a b) ≡ b - a
length-slice xs a b h = omega (arith, length-take (b - a) (drop a xs), length-drop a xs)

pub scan-scan_rest :
    (fuel : ℕ) (bytes : List ℕ) (offset end_offset : ℕ) (attributes : List Attribute)
    → end_offset ≤ length bytes
    → scan fuel bytes offset end_offset attributes
      ≡ scan_rest fuel (slice bytes offset end_offset) attributes
unfolding scan scan_rest
scan-scan_rest zero bytes offset end_offset attributes h = refl
scan-scan_rest (suc fuel) bytes offset end_offset attributes h =
    elim (Option-cases (decode (slice bytes offset end_offset))) [
      | inl e ↦ ground (arith, e, length-slice bytes offset end_offset)
      | inr (attr, e) ↦ ground (
        arith,
        e,
        length-slice bytes offset end_offset,
        drop-slice (wire_size attr) offset end_offset bytes,
        scan-scan_rest fuel bytes (offset + wire_size attr) end_offset (attributes ++ attr ∷ []),
      )
    ]

-- The loop reads back an encoded list of attributes, and appends it to what it has.
pub scan_rest-encode_attributes :
    (fuel : ℕ) (rest attributes : List Attribute)
    → All IsAttribute rest
    → length (encode_attributes rest) < fuel
    → scan_rest fuel (encode_attributes rest) attributes ≡ finished (attributes ++ rest)
unfolding scan_rest encode_attributes
scan_rest-encode_attributes zero rest attributes h f = absurd (omega arith)
scan_rest-encode_attributes (suc fuel) [] attributes h f = rw append-nil
scan_rest-encode_attributes (suc fuel) (a ∷ rest) attributes (ha, hs) f = ground (
  arith,
  decode-encode_attribute a (encode_attributes rest) ha,
  length-encode_attribute a ha,
  length-append (encode a) (encode_attributes rest),
  drop_front (wire_size a) (encode a) (encode_attributes rest) (length-encode_attribute a ha),
  append_assoc attributes (a ∷ []) rest,
  scan_rest-encode_attributes fuel rest (attributes ++ a ∷ []) hs,
)

-- With more fuel than bytes the loop ends, and the attributes that it adds fit in the bytes.
abbrev pub total_size : List Attribute → ℕ
total_size [] = 0
total_size (a ∷ rest) = wire_size a + total_size rest

abbrev pub Ends : List Attribute → ℕ → Scan → Type 0
Ends attributes room (finished found) = total_size found ≤ total_size attributes + room
Ends attributes room refused = Unit {0}
Ends attributes room out_of_fuel = ⊥

total_size-append : (xs ys : List Attribute) → total_size (xs ++ ys) ≡ total_size xs + total_size ys
total_size-append [] ys = omega arith
total_size-append (x ∷ xs) ys = omega (arith, total_size-append xs ys)

Ends-mono :
    (xs ys : List Attribute) (m n : ℕ) (s : Scan)
    → total_size xs + m ≤ total_size ys + n
    → Ends xs m s
    → Ends ys n s
Ends-mono xs ys m n (finished found) h e = omega arith
Ends-mono xs ys m n refused h e = tt
Ends-mono xs ys m n out_of_fuel h e = e

pub scan_rest-Ends :
    (fuel : ℕ) (rest : List ℕ) (attributes : List Attribute)
    → length rest < fuel
    → Ends attributes (length rest) (scan_rest fuel rest attributes)
unfolding scan_rest
scan_rest-Ends zero rest attributes h = absurd (omega arith)
scan_rest-Ends (suc fuel) rest attributes h = elim (Option-cases (decode rest)) [
  | inl e ↦ ground (arith, e)
  | inr (attr, e) ↦ ground (
    arith,
    e,
    length-drop (wire_size attr) rest,
    total_size-append attributes (attr ∷ []),
    scan_rest-Ends fuel (drop (wire_size attr) rest) (attributes ++ attr ∷ []),
    Ends-mono (attributes ++ attr ∷ []) attributes (length (drop (wire_size attr) rest))
        (length rest) (scan_rest fuel (drop (wire_size attr) rest) (attributes ++ attr ∷ [])),
  )
]
