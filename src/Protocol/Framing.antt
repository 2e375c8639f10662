-- ===== src/Protocol/Framing.antt =====
-- The message envelope: a 3-byte header, and a payload of the length that it announces.
use audio_bat.Base.{
  ℕ, ◌+◌, ◌*◌, ◌/◌, ◌%◌, ◌<◌, ◌≡◌, List, ◌∷◌, ◌++◌, some, arith, length, drop, le→ltb,
}
use audio_bat.Protocol.Types.{Opcode, Command, header_size}
use audio_bat.Protocol.Bytes.{opcode_byte, opcode_of_byte, try_read_header}
use audio_bat.Protocol.Decode.{decode_command}

abbrev pub framed : Opcode → ℕ → List ℕ → List ℕ
framed op n payload = opcode_byte op ∷ n / 256 % 256 ∷ n % 256 ∷ payload

pub try_read_header-framed :
    (op : Opcode) (n available : ℕ) (payload : List ℕ)
    → opcode_of_byte (opcode_byte op) ≡ op
    → n < 65536
    → 3 + length payload ≡ available
    → try_read_header (framed op n payload) available
      ≡ some (record { message_opcode = op; payload_length = n })
unfolding try_read_header
try_read_header-framed op n available payload named small e =
    let split : (n / 256 % 256 * 256 + n % 256) % 65536 ≡ n = omega arith in
    rw (le→ltb available 3 (omega arith), named, split)

-- A message at the front of a buffer: its header announces the rest of it, and its payload decodes
-- to the command, whatever stands behind it.
pub record Carries (message rest : List ℕ) (c : Command) : Type 0 where
  pub opcode : Opcode
  pub payload_length : ℕ
  pub header_read :
      try_read_header (message ++ rest) (length (message ++ rest))
      ≡ some (record { message_opcode = opcode; payload_length = payload_length })
  pub whole : length message ≡ header_size + payload_length
  pub decoded : decode_command opcode (drop header_size (message ++ rest)) payload_length ≡ some c

pub framed-Carries :
    (op : Opcode) (n : ℕ) (payload rest : List ℕ) (c : Command)
    → opcode_of_byte (opcode_byte op) ≡ op
    → n < 65536
    → length payload ≡ n
    → decode_command op (payload ++ rest) n ≡ some c
    → Carries (framed op n payload) rest c
framed-Carries op n payload rest c named small e d = record {
  opcode = op;
  payload_length = n;
  header_read = try_read_header-framed op n _ (payload ++ rest) named small (omega arith);
  whole = omega arith;
  decoded = d;
}
