-- ===== src/Ports/Bitmap.antt =====
-- src/allocation.rs, `PortAllocator`. A word of the bitmap is a number below 2 ^ 64. The two draws
-- of `port_rand` are arguments.
use miuturn.Common.{
  ℕ, zero, suc, ◌+◌, ◌-◌, ◌*◌, ◌/◌, ◌%◌, ◌^◌, List, [], ◌∷◌, Option, none, some, Bool, true, false,
  not, ◌&&◌, ◌||◌, ltb, leb, ◌==◌, if◌then◌else◌, length, get_or, set, replicate, bit_and, bit_or,
}
use miuturn.Common.TestBit.{trailing_zeros}

abbrev pub word_max : ℕ
word_max = 2 ^ 64 - 1

pub record PortAllocator : Type 0 where
  pub allocated : List ℕ
  pub allocated_count : ℕ
  pub min_port : ℕ
  pub max_port : ℕ
  pub port_count : ℕ

-- The count is a `u16`: it wraps to 0 for the range of all ports.
unfoldable pub new : ℕ → ℕ → PortAllocator
new min_port max_port =
    let port_count = (max_port + 2 ^ 16 - min_port + 1) % 2 ^ 16 in
    record {
      allocated = replicate ((port_count + 63) / 64) 0;
      allocated_count = 0;
      min_port = min_port;
      max_port = max_port;
      port_count = port_count;
    }

-- A bit that is chosen in a word, with the value of the word that the exchange replaces.
abbrev pub Choice : Type 0
Choice = Option (ℕ × ℕ)

-- `(actual_idx * 64 + bit) as u16`
abbrev pub port_index : ℕ → ℕ → ℕ
port_index actual_idx bit_index = (actual_idx * 64 + bit_index) % 2 ^ 16

unfoldable pub lowest_free : ℕ → ℕ → ℕ → Choice
lowest_free port_count actual_idx current =
    let free_mask = word_max - current in
    let free_bit = trailing_zeros 64 free_mask in
    elim (free_mask == 0 || leb port_count (port_index actual_idx free_bit)) [
      | true ↦ none
      | false ↦ some (free_bit, current)
    ]

-- The loop that takes the lowest free bit. The list holds the values that failing exchanges
-- observe, in order.
unfoldable pub fallback : ℕ → ℕ → List ℕ → ℕ → Choice
unfolding lowest_free
fallback port_count actual_idx [] current = lowest_free port_count actual_idx current
fallback port_count actual_idx (o ∷ observed) current =
    elim (lowest_free port_count actual_idx current) [
      | none ↦ none
      | some choice ↦ fallback port_count actual_idx observed o
    ]

-- One round of `allocate`: the random bit if it is free and in range, else the lowest free one.
unfoldable pub choose : ℕ → ℕ → ℕ → List ℕ → ℕ → Choice
choose port_count actual_idx random_bit observed current =
    let free_mask = word_max - current in
    let random_is_free =
      not (bit_and free_mask (2 ^ random_bit) == 0)
      && ltb (port_index actual_idx random_bit) port_count in
    elim (current == word_max || free_mask == 0) [
      | true ↦ none
      | false ↦ elim random_is_free [
        | false ↦ fallback port_count actual_idx observed current
        | true ↦ elim observed [
          | [] ↦ some (random_bit, current)
          | o ∷ rest ↦ fallback port_count actual_idx rest o
        ]
      ]
    ]

-- The rounds left and the number of the round; the result is the word and the bit.
unfoldable pub probe : PortAllocator → ℕ → ℕ → ℕ → ℕ → Option (ℕ × ℕ × ℕ)
probe p start_idx bit_offset zero bitmap_idx = none
probe p start_idx bit_offset (suc rounds) bitmap_idx =
    let actual_idx = (start_idx + bitmap_idx) % length p.allocated in
    let random_bit = (bit_offset + bitmap_idx) % 64 in
    elim (choose p.port_count actual_idx random_bit [] (get_or p.allocated actual_idx 0)) [
      | none ↦ probe p start_idx bit_offset rounds (bitmap_idx + 1)
      | some (bit_index, current) ↦ some (actual_idx, bit_index, current)
    ]

-- The exchange sets the bit. No other thread exchanges a word in between.
unfoldable pub allocate : PortAllocator → ℕ → ℕ → PortAllocator × Option ℕ
allocate p draw_1 draw_2 =
    let start_idx = draw_1 % length p.allocated in
    let bit_offset = draw_2 % 2 ^ 32 % 64 in
    elim (probe p start_idx bit_offset (length p.allocated) 0) [
      | none ↦ (p, none)
      | some (actual_idx, bit_index, current) ↦ (
        record p {
          allocated = set p.allocated actual_idx (bit_or current (2 ^ bit_index));
          allocated_count = p.allocated_count + 1;
        },
        some (p.min_port + port_index actual_idx bit_index),
      )
    ]

abbrev pub out_of_range : PortAllocator → ℕ → Bool
out_of_range p port = ltb port p.min_port || ltb p.max_port port

unfoldable pub release : PortAllocator → ℕ → PortAllocator × Bool
release p port =
    let index = port - p.min_port in
    let bitmap_index = index / 64 in
    let mask = 2 ^ (index % 64) in
    let current = get_or p.allocated bitmap_index 0 in
    if out_of_range p port
    then (p, false)
    else if leb (length p.allocated) bitmap_index
    then (p, false)
    else if bit_and current mask == 0
    then (p, false)
    else (
      record p {
        allocated = set p.allocated bitmap_index (bit_and current (word_max - mask));
        allocated_count = p.allocated_count - 1;
      },
      true,
    )

unfoldable pub is_allocated : PortAllocator → ℕ → Bool
is_allocated p port =
    let index = port - p.min_port in
    if out_of_range p port
    then false
    else if leb (length p.allocated) (index / 64)
    then false
    else not (bit_and (get_or p.allocated (index / 64) 0) (2 ^ (index % 64)) == 0)

unfoldable pub available_count : PortAllocator → ℕ
available_count p = p.port_count - p.allocated_count
