-- ===== src/Gdb/Packet.antt =====
-- src/main.cpp, lines 918-1004: packets on the wire. The socket is the list of the characters that
-- arrive before the connection ends; what is sent arrives.
use z80_trace.Common.{ℕ, ◌+◌, ◌<◌, Bool, true, false, [], ◌∷◌, ◌++◌, Option, none, some, u8}
use z80_trace.Common.{◌≡◌, ◌≢◌, refl, ◌∙◌, ap, arith, bit_and, ◌||◌, ◌==◌, ◌>>>◌, if◌then◌else◌}
use z80_trace.Common.Text.{Text}
use z80_trace.Common.Join.{low_byte_mask}
use z80_trace.Gdb.Hex.{digit_code, byte_hex, parse_hex_byte_pair}
use z80_trace.Gdb.Codec.{parse_hex_byte_pair-byte_hex}

-- The checksum after a character.
unfoldable pub add_checksum : ℕ → ℕ → ℕ
add_checksum checksum ch = bit_and (checksum + ch) 0xff

unfoldable pub checksum_from : ℕ → Text → ℕ
checksum_from checksum [] = checksum
checksum_from checksum (ch ∷ text) = checksum_from (add_checksum checksum ch) text

-- The packet that `SendPacket` sends.
unfoldable pub send_packet : Text → Text
send_packet payload =
    let checksum = checksum_from 0 payload in
    36 ∷ (payload ++ 35 ∷ digit_code (checksum >>> 4) ∷ digit_code checksum ∷ [])

-- Where `ReadPacket` stands: before a packet, in its payload, and at the two digits behind it.
pub data Reader : Type 0 where
  outside : Reader
  inside : Text → ℕ → Reader
  first_digit : Text → ℕ → Reader
  second_digit : Text → ℕ → ℕ → Reader

pub data Received : Type 0 where
  closed interrupt : Received
  packet : Text → Received

-- What is received, the acknowledgements that are sent, and what is left to read.
pub record Reading : Type 0 where
  pub received : Received
  pub sent : Text
  pub rest : Text

-- An acknowledgement goes out before what is sent later.
unfoldable pub acknowledge : Bool → ℕ → Reading → Reading
acknowledge no_ack ch reading =
    if no_ack then reading else record reading { sent = ch ∷ reading.sent }

-- `ReadPacket`, from each of its calls of `recv`.
unfoldable pub read_packet : Bool → Reader → Text → Reading
read_packet no_ack reader [] = record { received = closed; sent = []; rest = [] }
read_packet no_ack outside (ch ∷ text) =
    let skip = read_packet no_ack outside text in
    let start = read_packet no_ack (inside [] 0) text in
    if ch == 43 || ch == 45
    then skip
    else (if ch == 3
        then record { received = interrupt; sent = []; rest = text }
        else (if ch == 36 then start else skip))
read_packet no_ack (inside payload checksum) (ch ∷ text) =
    let end = read_packet no_ack (first_digit payload checksum) text in
    let more = read_packet no_ack (inside (payload ++ ch ∷ []) (add_checksum checksum ch)) text in
    if ch == 35 then end else more
read_packet no_ack (first_digit payload checksum) (ch ∷ text) =
    read_packet no_ack (second_digit payload checksum ch) text
read_packet no_ack (second_digit payload checksum digit) (ch ∷ text) =
    let again = read_packet no_ack outside text in
    elim (parse_hex_byte_pair (digit ∷ ch ∷ [])) [
      | none ↦ acknowledge no_ack 45 again
      | some expected ↦
          if expected == u8 checksum
          then acknowledge no_ack 43 (record { received = packet payload; sent = []; rest = text })
          else acknowledge no_ack 45 again
    ]

-- A text without the character that ends a payload.
abbrev pub NoEnd : Text → Type 0
NoEnd [] = Unit
NoEnd (ch ∷ text) = (ch ≢ 35) × NoEnd text

append-nil : (xs : Text) → xs ++ [] ≡ xs
append-nil [] = refl
append-nil (x ∷ xs) = ap (λ ys. x ∷ ys) (append-nil xs)

append_assoc : (xs ys zs : Text) → (xs ++ ys) ++ zs ≡ xs ++ (ys ++ zs)
append_assoc [] ys zs = refl
append_assoc (x ∷ xs) ys zs = ap (λ rest. x ∷ rest) (append_assoc xs ys zs)

-- The payload is collected up to its end.
read_packet-payload :
    (no_ack : Bool) (before payload text : Text) (checksum : ℕ)
    → NoEnd payload
    → read_packet no_ack (inside before checksum) (payload ++ 35 ∷ text)
      ≡ read_packet no_ack (first_digit (before ++ payload) (checksum_from checksum payload)) text
unfolding read_packet checksum_from
read_packet-payload no_ack before [] text checksum h = rw (append-nil before) refl
read_packet-payload no_ack before (ch ∷ payload) text checksum h =
    let differs : (ch == 35) ≡ false = ground (arith, h.0) in
    rw (differs) (
      read_packet-payload no_ack (before ++ ch ∷ []) payload text (add_checksum checksum ch) h.1
      ∙ rw (append_assoc before (ch ∷ []) payload) refl)

byte_mask : (a : ℕ) → bit_and a 0xff < 256
byte_mask a = omega (arith, low_byte_mask a)

checksum_from-IsByte :
    (checksum : ℕ) (text : Text) → checksum < 256 → checksum_from checksum text < 256
unfolding checksum_from add_checksum
checksum_from-IsByte checksum [] h = h
checksum_from-IsByte checksum (ch ∷ text) h =
    checksum_from-IsByte (bit_and (checksum + ch) 0xff) text (byte_mask (checksum + ch))

-- A packet is read up to its two digits.
read_packet-digits :
    (no_ack : Bool) (payload rest : Text) (x y : ℕ)
    → NoEnd payload
    → read_packet no_ack outside (36 ∷ (payload ++ 35 ∷ x ∷ y ∷ rest))
      ≡ read_packet no_ack (second_digit payload (checksum_from 0 payload) x) (y ∷ rest)
unfolding read_packet
read_packet-digits no_ack payload rest x y h =
    read_packet-payload no_ack [] payload (x ∷ y ∷ rest) 0 h

digits_right :
    (no_ack : Bool) (payload text : Text) (checksum x y expected : ℕ)
    → parse_hex_byte_pair (x ∷ y ∷ []) ≡ some expected
    → (expected == u8 checksum) ≡ true
    → read_packet no_ack (second_digit payload checksum x) (y ∷ text)
      ≡ acknowledge no_ack 43 (record { received = packet payload; sent = []; rest = text })
unfolding read_packet
digits_right no_ack payload text checksum x y expected digits right =
    rw (read_packet, digits, right) refl

digits_wrong :
    (no_ack : Bool) (payload text : Text) (checksum x y : ℕ) (found : Option ℕ)
    → parse_hex_byte_pair (x ∷ y ∷ []) ≡ found
    → found ≢ some checksum
    → checksum < 256
    → read_packet no_ack (second_digit payload checksum x) (y ∷ text)
      ≡ acknowledge no_ack 45 (read_packet no_ack outside text)
unfolding read_packet
digits_wrong no_ack payload text checksum x y none digits wrong small =
    rw (read_packet, digits) refl
digits_wrong no_ack payload text checksum x y (some expected) digits wrong small =
    let differs : expected ≢ checksum = λ e. wrong (ap some e) in
    let no_match : (expected == u8 checksum) ≡ false = ground (arith, differs) in
    rw (read_packet, digits, no_match) refl

acknowledged :
    (no_ack : Bool) (payload text : Text)
    → acknowledge no_ack 43 (record { received = packet payload; sent = []; rest = text })
      ≡ record { received = packet payload; sent = if no_ack then [] else 43 ∷ []; rest = text }
unfolding acknowledge
acknowledged true payload text = refl
acknowledged false payload text = refl

-- What is sent as a packet is read as that packet: a payload that does not have the character that
-- ends one (`#`) is received, acknowledged by `+` unless acknowledgements are off, and what follows
-- the packet is left to read.
pub read_packet-send_packet :
    (no_ack : Bool) (payload rest : Text)
    → NoEnd payload
    → read_packet no_ack outside (send_packet payload ++ rest)
      ≡ record { received = packet payload; sent = if no_ack then [] else 43 ∷ []; rest = rest }
unfolding send_packet byte_hex
read_packet-send_packet no_ack payload rest h =
    let checksum : ℕ = checksum_from 0 payload in
    let small : checksum < 256 = checksum_from-IsByte 0 payload (omega arith) in
    let x : ℕ = digit_code (checksum >>> 4) in
    let y : ℕ = digit_code checksum in
    ap (λ text. read_packet no_ack outside (36 ∷ text))
      (append_assoc payload (35 ∷ x ∷ y ∷ []) rest)
    ∙ (read_packet-digits no_ack payload rest x y h
        ∙ (digits_right no_ack payload rest checksum x y checksum
              (parse_hex_byte_pair-byte_hex checksum small) (ground arith)
            ∙ acknowledged no_ack payload rest))

-- A packet whose two digits do not give the checksum of its payload is dropped: `-` is sent, unless
-- acknowledgements are off, and the next packet is read.
pub read_packet-refused :
    (no_ack : Bool) (payload rest : Text) (x y : ℕ)
    → NoEnd payload
    → parse_hex_byte_pair (x ∷ y ∷ []) ≢ some (checksum_from 0 payload)
    → read_packet no_ack outside (36 ∷ (payload ++ 35 ∷ x ∷ y ∷ rest))
      ≡ acknowledge no_ack 45 (read_packet no_ack outside rest)
read_packet-refused no_ack payload rest x y h wrong =
    read_packet-digits no_ack payload rest x y h
    ∙ digits_wrong no_ack payload rest (checksum_from 0 payload) x y _ refl wrong
        (checksum_from-IsByte 0 payload (omega arith))
