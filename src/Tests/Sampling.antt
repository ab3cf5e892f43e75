-- ===== src/Tests/Sampling.antt =====
-- A message of two bytes from one sampling port to another.
use arinc653emulator.Prelude.{
  ℕ, zero, ◌+◌, ℤ, pos, negsuc, ◌-ℤ◌, ◌≡◌, refl, arith, true, some, List, [], ◌∷◌, ◌++◌, length,
  take, drop,
}
use arinc653emulator.Types.{no_error}
use arinc653emulator.Blocking.{done}
use arinc653emulator.SamplingPort.{
  port_source, port_dest, valid, SamplingPort, Words, write_message, write_contents, read_contents,
  Validity, read_message,
}
use arinc653emulator.SamplingPort.Transfer.{ByAge, write_message-read_message}

abbrev encode : ℤ → List ℕ
encode (pos n) = n ∷ 0 ∷ 0 ∷ 0 ∷ 0 ∷ 0 ∷ 0 ∷ 0 ∷ []
encode (negsuc n) = n ∷ 1 ∷ 0 ∷ 0 ∷ 0 ∷ 0 ∷ 0 ∷ 0 ∷ []

abbrev decode : List ℕ → ℤ
decode (n ∷ zero ∷ _) = pos n
decode (n ∷ _) = negsuc n
decode [] = pos 0

length-encode : (x : ℤ) → length (encode x) ≡ 8
length-encode (pos n) = refl
length-encode (negsuc n) = refl

decode-encode : (x : ℤ) → decode (encode x) ≡ x
decode-encode (pos n) = refl
decode-encode (negsuc n) = refl

words : Words
words = record {
  encode = encode;
  decode = decode;
  length-encode = length-encode;
  decode-encode = λ x r. decode-encode x;
}

abbrev sender : SamplingPort
sender = record {
  port_name = "out";
  max_message_size = pos 3;
  port_direction = port_source;
  refresh_period = pos 100;
  ready_or_not = true;
  last_validity = valid;
  shared_memory = record {
    absolute_time_written = pos 0;
    message_size = pos 0;
    bytes = 0 ∷ 0 ∷ 0 ∷ [];
  };
}

abbrev receiver : SamplingPort
receiver = record sender { port_name = "in"; port_direction = port_dest }

abbrev buffer : List ℕ
buffer = 0 ∷ 0 ∷ 0 ∷ 0 ∷ 0 ∷ 0 ∷ 0 ∷ 0 ∷ 0 ∷ 0 ∷ 0 ∷ 0 ∷ 0 ∷ 0 ∷ 0 ∷ 0 ∷ 0 ∷ 0 ∷ 0 ∷ []

transfer_example :
    (s1 : SamplingPort) × (bytes : List ℕ) × (d1 : SamplingPort) × (d2 : SamplingPort)
    × (v : Validity) × (write_message (pos 50) (8 ∷ 9 ∷ []) (pos 2) sender ≡ done (no_error, s1))
    × (read_contents words buffer (pos 19) s1 ≡ done (no_error, 16 + 2, bytes))
    × (write_contents words bytes (pos (16 + 2)) receiver ≡ done (no_error, d1))
    × (read_message (pos 120) (1 ∷ 1 ∷ 1 ∷ []) d1
        ≡ done (no_error, some (pos 2, v), take 2 (8 ∷ 9 ∷ []) ++ drop 2 (1 ∷ 1 ∷ 1 ∷ []), d2))
    × ByAge (pos 120 -ℤ pos 50) (pos 100) v
unfolding ◌-ℤ◌
transfer_example =
    write_message-read_message words (pos 50) (pos 120) (8 ∷ 9 ∷ []) buffer (1 ∷ 1 ∷ 1 ∷ []) 2 3 19
      sender receiver refl refl refl (omega arith) refl refl (omega arith) (omega arith)
      (omega arith) (omega arith) (omega arith) refl (omega arith) (omega arith) (omega arith)
