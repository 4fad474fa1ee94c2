-- ===== src/Wmbus/Rfm69Packet/Size.antt =====
-- The size that the header announces, against the frames that a meter sends, and the checks on a
-- whole frame.
use mbuscrate.Prelude.{
  bit_xor, get_elem?_lt, get_elem?-eq_none, le_or_lt, ℕ, ◌+◌, ◌-◌, ◌*◌, ◌/◌, ◌%◌, ◌^◌, ◌≤◌, ◌≡◌,
  refl, sym, ap, ◌∙◌, List, [], ◌∷◌, ◌++◌, true, false, ◌==◌, ltb, if◌then◌else◌, length,
  length-append, arith, none, ◌↔◌, get_elem?, pos, All, IsByte, Bool-cases, inl, inr, ◌≢◌, ==_iff,
}
use mbuscrate.Wmbus.Crc.{calculate_wmbus_crc, crc_bits}
use mbuscrate.Wmbus.Crc.Serial.{
  reference, reference_loop, reference_step, calculate_wmbus_crc-eq-reference,
}
use mbuscrate.Wmbus.Frame.{add_wmbus_crc}
use mbuscrate.Wmbus.Frame.Build.{length-add_wmbus_crc}
use mbuscrate.Wmbus.ModeC.Sender.{
  Header, header_bytes, IsBlocked, concat, data_bytes, type_a_frame, type_b_frame,
}
use mbuscrate.Wmbus.Rfm69Packet.{
  wmbus_packet_len, packet_size, sync_norm, is_encrypted_frame, encrypted_of, wmbus_crc,
  wmbus_crc_loop,
}

crc_block :
    (block rest : List ℕ) → length (add_wmbus_crc block ++ rest) ≡ length block + 2 + length rest
crc_block block rest =
    omega (arith, length-append (add_wmbus_crc block) rest, length-add_wmbus_crc block)

-- The data blocks of type A are the payload and two bytes for each started block of 16.
length-data_bytes :
    (blocks : List (List ℕ))
    → IsBlocked blocks
    → length (data_bytes blocks) ≡ length (concat blocks) + 2 * ((length (concat blocks) + 15) / 16)
unfolding data_bytes concat
length-data_bytes [] h = refl
length-data_bytes (block ∷ []) (lo, hi) =
    omega (arith, lo, hi, crc_block block [], length-append block [])
length-data_bytes (block ∷ next ∷ blocks) (size, h) = omega (
  arith,
  size,
  crc_block block (data_bytes (next ∷ blocks)),
  length-append block (concat (next ∷ blocks)),
  length-data_bytes (next ∷ blocks) h,
)

-- Two bytes settle the size.
pub packet_size-two :
    (b0 b1 : ℕ) (xs ys : List ℕ) → packet_size (b0 ∷ b1 ∷ xs) ≡ packet_size (b0 ∷ b1 ∷ ys)
unfolding packet_size
packet_size-two b0 b1 xs ys = refl

-- The bytes that the announced size of a type A frame leaves out: two, where the payload has one
-- byte more than whole blocks.
abbrev pub left_out : ℕ → ℕ
left_out payload_len = if payload_len % 16 == 1 then 2 else 0

pub type_a_len :
    (p : ℕ) → wmbus_packet_len (9 + p) false + left_out p ≡ 1 + 12 + (p + 2 * ((p + 15) / 16))
unfolding wmbus_packet_len
type_a_len p = elim (Bool-cases (p % 16 == 1)) [
  | inl one ↦ rw one (omega (arith, (==_iff (p % 16) 1).0 one))
  | inr more ↦ rw more (omega (arith, odd_blocks more))
]
  where
    odd_blocks : (p % 16 == 1) ≡ false → p % 16 ≢ 1
    odd_blocks e q = cc (e, (==_iff (p % 16) 1).1 q)

pub packet_size-type_a_frame :
    (h : Header) (blocks : List (List ℕ)) (rest : List ℕ)
    → packet_size (type_a_frame h blocks ++ rest)
      ≡ pos (wmbus_packet_len (9 + length (concat blocks)) false)
unfolding packet_size sync_norm type_a_frame add_wmbus_crc
packet_size-type_a_frame h blocks rest = refl

pub packet_size-type_b_frame :
    (h : Header) (payload rest : List ℕ)
    → packet_size (type_b_frame h payload ++ rest) ≡ pos (11 + length payload + 2)
unfolding packet_size sync_norm wmbus_packet_len type_b_frame add_wmbus_crc
packet_size-type_b_frame h payload rest = refl

pub length-type_a_frame :
    (h : Header) (blocks : List (List ℕ))
    → IsBlocked blocks
    → length (type_a_frame h blocks)
      ≡ wmbus_packet_len (9 + length (concat blocks)) false + left_out (length (concat blocks))
unfolding type_a_frame add_wmbus_crc
length-type_a_frame h blocks hb =
    omega (arith, length-data_bytes blocks hb, type_a_len (length (concat blocks)))

abbrev crc_of : Header → List ℕ → List ℕ
crc_of h payload =
    let block = header_bytes (11 + length payload) h ++ payload in
    calculate_wmbus_crc block / 2 ^ 8 ∷ calculate_wmbus_crc block % 2 ^ 8 ∷ []

pub length-type_b_frame :
    (h : Header) (payload : List ℕ) → length (type_b_frame h payload) ≡ 11 + length payload + 2
unfolding type_b_frame add_wmbus_crc
length-type_b_frame h payload = omega (arith, length-append payload (crc_of h payload))

-- The size that `packet_size` reads from the header of a frame of type B is the size of the frame;
-- for type A, the frame has two bytes more if its payload is one byte longer than whole blocks of
-- 16, and exactly that size in all other cases.
pub packet_size_lem :
    (h : Header) (blocks : List (List ℕ)) (payload rest : List ℕ)
    → IsBlocked blocks
    → (packet_size (type_b_frame h payload ++ rest) ≡ pos (length (type_b_frame h payload)))
      × ((n : ℕ) × (packet_size (type_a_frame h blocks ++ rest) ≡ pos n)
          × (n + left_out (length (concat blocks)) ≡ length (type_a_frame h blocks)))
packet_size_lem h blocks payload rest hb = (
  packet_size-type_b_frame h payload rest ∙ ap pos (sym (length-type_b_frame h payload)),
  (
    wmbus_packet_len (9 + length (concat blocks)) false,
    packet_size-type_a_frame h blocks rest,
    sym (length-type_a_frame h blocks hb),
  ),
)

-- With an index in range the test has an answer.
encrypted_of-some :
    (payload : List ℕ)
    → 12 ≤ length payload
    → encrypted_of (get_elem? payload 10) (get_elem? payload 11) ≢ none
unfolding encrypted_of
encrypted_of-some payload long e =
    let (ci, at10) = get_elem?_lt payload 10 (omega arith) in
    let (acc, at11) = get_elem?_lt payload 11 (omega arith) in cc (rw (at10, at11) at e)

-- `is_encrypted_frame` panics on a payload of eleven bytes, and on no other.
pub is_encrypted_frame_iff :
    (payload : List ℕ) → (is_encrypted_frame payload ≡ none) ↔ (length payload ≡ 11)
unfolding is_encrypted_frame encrypted_of
is_encrypted_frame_iff payload = (forth, back)
  where
    forth : is_encrypted_frame payload ≡ none → length payload ≡ 11
    forth e = elim (le_or_lt (length payload) 10) [
      | inl short ↦ let test : ltb (length payload) 11 ≡ true = ground arith in cc (rw test at e)
      | inr long ↦ elim (le_or_lt (length payload) 11) [
        | inl eleven ↦ omega arith
        | inr more ↦
            let test : ltb (length payload) 11 ≡ false = ground arith in
            absurd (encrypted_of-some payload (omega arith) (rw test at e))
      ]
    ]

    back : length payload ≡ 11 → is_encrypted_frame payload ≡ none
    back eleven =
        let test : ltb (length payload) 11 ≡ false = ground arith in
        let (ci, at10) = get_elem?_lt payload 10 (omega arith) in
        rw (test, at10, get_elem?-eq_none payload 11 (omega arith)) refl

loop-eq : (bytes : List ℕ) (r : ℕ) → wmbus_crc_loop r bytes ≡ reference_loop r bytes
unfolding reference_loop reference_step
loop-eq [] r = refl
loop-eq (b ∷ bs) r = loop-eq bs (crc_bits 8 (bit_xor r (b * 2 ^ 8 % 2 ^ 16)))

-- On bytes, the bit-serial CRC of this file is the table-driven CRC of the frames.
pub wmbus_crc-eq : (bytes : List ℕ) → All IsByte bytes → wmbus_crc bytes ≡ calculate_wmbus_crc bytes
unfolding wmbus_crc reference
wmbus_crc-eq bytes h =
    ap (λ (r : ℕ). 0xFFFF - r) (loop-eq bytes 0) ∙ sym (calculate_wmbus_crc-eq-reference bytes h)
