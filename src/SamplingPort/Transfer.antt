-- ===== src/SamplingPort/Transfer.antt =====
-- A message that goes from a port of one partition to a port of another.
use mathlib.Core.List.{append_assoc}
use arinc653emulator.Prelude.{
  ℕ, ◌+◌, ◌^◌, ◌≤◌, ◌<◌, ltb, ℤ, pos, ◌+ℤ◌, ◌-ℤ◌, ltb_ℤ, eqb_ℤ, ◌≤ℤ◌, ◌<ℤ◌, ◌⊎◌, inl, inr,
  Bool-cases, ◌≡◌, refl, sym, ap, ◌∙◌, arith, Bool, true, false, not, ◌||◌, some, List, ◌++◌,
  length, take, drop, length-take, length-append,
}
use arinc653emulator.Types.{no_error}
use arinc653emulator.Buffer.{memcpy}
use arinc653emulator.Buffer.Ring.{memcpy_lem, take-append_exact}
use arinc653emulator.Blocking.{done}
use arinc653emulator.SamplingPort.{
  Validity, valid, invalid, is_source, is_dest, SamplingPort,
  system_limit_max_sampling_message_size, header_size, Words, write_message, is_short, prefix_of,
  written, write_contents, read_contents, validity_of, read_message,
}
use arinc653emulator.SamplingPort.Copies.{drop-append_exact, head_of, memcpy_whole, drop_twice}

-- The integers that 64 bits hold
abbrev pub in_range : ℤ → Bool
in_range x = not (ltb_ℤ x (pos 0 -ℤ pos (2 ^ 63)) || not (ltb_ℤ x (pos (2 ^ 63))))

write_message_known :
    (now : ℤ) (message : List ℕ) (n m : ℕ) (s : SamplingPort)
    → s.ready_or_not ≡ true
    → is_dest s.port_direction ≡ false
    → s.max_message_size ≡ pos m
    → n ≤ m
    → n ≤ length message
    → n ≤ length s.shared_memory.bytes
    → write_message now message (pos n) s
      ≡ done (
        no_error,
        record s {
          shared_memory = record {
            absolute_time_written = now;
            message_size = pos n;
            bytes = take n message ++ drop n s.shared_memory.bytes;
          };
        },
      )
unfolding write_message
write_message_known now message n m s r d e a b c =
    let fits : ltb_ℤ s.max_message_size (pos n) ≡ false = ground (arith, e) in
    simp (write_message, r, d, fits, memcpy_lem s.shared_memory.bytes message n c b)

read_message_known :
    (now : ℤ) (out rest : List ℕ) (n : ℕ) (message : List ℕ) (d : SamplingPort)
    → d.ready_or_not ≡ true
    → is_source d.port_direction ≡ false
    → d.shared_memory.message_size ≡ pos n
    → d.shared_memory.bytes ≡ take n message ++ rest
    → 0 < n
    → n ≤ length message
    → n ≤ length out
    → read_message now out d
      ≡ done (
        no_error,
        some (pos n, validity_of (now -ℤ d.shared_memory.absolute_time_written) d.refresh_period),
        take n message ++ drop n out,
        record d {
          last_validity =
              validity_of (now -ℤ d.shared_memory.absolute_time_written) d.refresh_period;
        },
      )
unfolding read_message
read_message_known now out rest n message d r s e b z a c =
    let full : eqb_ℤ (pos n) (pos 0) ≡ false = ground arith in
    let room : n ≤ length (take n message ++ rest) =
      omega (arith, length-append (take n message) rest, length-take n message) in
    let copy : memcpy out (take n message ++ rest) (pos n) ≡ some (take n message ++ drop n out) =
      memcpy_lem out (take n message ++ rest) n c room
      ∙ ap (λ l. some (l ++ drop n out)) (head_of n message rest a) in
    simp (read_message, r, s, e, full, b, copy)

fits_known : (k m : ℕ) → m + header_size ≤ k → ltb_ℤ (pos k) (pos m +ℤ pos header_size) ≡ false
unfolding ◌+ℤ◌
fits_known k m h = ground arith

of_not : (b : Bool) → not b ≡ true → b ≡ false
of_not true h = sym h
of_not false h = refl

size_in_range : (n : ℕ) → n ≤ system_limit_max_sampling_message_size → in_range (pos n) ≡ true
unfolding ◌-ℤ◌
size_in_range n h = ground arith

written_known : (n : ℕ) → n ≤ system_limit_max_sampling_message_size → written n ≡ header_size + n
written_known n h = omega arith

module _ (words : Words) where
  open words use {encode, decode, length-encode, decode-encode}

  -- The bytes that travel: the time, the size and the message
  abbrev contents : ℤ → ℕ → List ℕ → List ℕ
  contents now n message = encode now ++ (encode (pos n) ++ take n message)

  length-contents :
      (now : ℤ) (n : ℕ) (message : List ℕ)
      → n ≤ length message
      → length (contents now n message) ≡ header_size + n
  length-contents now n message a = omega (
    arith,
    length-append (encode now) (encode (pos n) ++ take n message),
    length-append (encode (pos n)) (take n message),
    length-encode now,
    length-encode (pos n),
    length-take n message,
  )

  read_contents_known :
      (now : ℤ) (message rest buf : List ℕ) (n m k : ℕ) (s : SamplingPort)
      → s.ready_or_not ≡ true
      → is_dest s.port_direction ≡ false
      → s.max_message_size ≡ pos m
      → s.shared_memory ≡ record {
        absolute_time_written = now;
        message_size = pos n;
        bytes = take n message ++ rest;
      }
      → n ≤ length message
      → n ≤ system_limit_max_sampling_message_size
      → m + header_size ≤ k
      → header_size + n ≤ length buf
      → read_contents words buf (pos k) s
        ≡ done (no_error, header_size + n, contents now n message ++ drop (header_size + n) buf)
  unfolding read_contents
  read_contents_known now message rest buf n m k s r d e sh a l b c =
      let fits : ltb_ℤ (pos k) (s.max_message_size +ℤ pos header_size) ≡ false =
        ap (λ x. ltb_ℤ (pos k) (x +ℤ pos header_size)) e ∙ fits_known k m b in
      let room : ltb (length (take n message ++ rest)) n ≡ false =
        ground (arith, length-append (take n message) rest, length-take n message) in
      let head : prefix_of (take n message ++ rest) (pos n) ≡ some (take n message) =
        rw (prefix_of, room) (ap some (head_of n message rest a)) in
      let len = length-contents now n message a in
      let copy : memcpy buf (contents now n message) (pos (length (contents now n message)))
          ≡ some (contents now n message ++ drop (header_size + n) buf) =
        memcpy_whole buf (contents now n message) (header_size + n) len c in
      let time : s.shared_memory.absolute_time_written ≡ now =
        ap (λ x. x.absolute_time_written) sh in
      let size : s.shared_memory.message_size ≡ pos n = ap (λ x. x.message_size) sh in
      let bytes : s.shared_memory.bytes ≡ take n message ++ rest = ap (λ x. x.bytes) sh in
      let count : written (length (take n message)) ≡ header_size + n =
        omega (arith, length-take n message) in
      simp (read_contents, r, d, fits, time, size, bytes, head, copy, count)

  write_contents_known :
      (now : ℤ) (message rest : List ℕ) (n k : ℕ) (d : SamplingPort)
      → d.ready_or_not ≡ true
      → is_source d.port_direction ≡ false
      → in_range now ≡ true
      → n ≤ length message
      → n ≤ system_limit_max_sampling_message_size
      → n ≤ length d.shared_memory.bytes
      → k ≡ header_size + n
      → write_contents words (contents now n message ++ rest) (pos k) d
        ≡ done (
          no_error,
          record d {
            shared_memory = record {
              absolute_time_written = now;
              message_size = pos n;
              bytes = take n message ++ drop n d.shared_memory.bytes;
            };
          },
        )
  unfolding write_contents
  write_contents_known now message rest n k d r s t a l b e =
      let msg : List ℕ = contents now n message ++ rest in
      let whole : ltb (length msg) header_size ≡ false =
        ground
          (arith, length-append (contents now n message) rest, length-contents now n message a) in
      let long : is_short (pos k) ≡ false = ground (arith, e) in
      let split : msg ≡ encode now ++ ((encode (pos n) ++ take n message) ++ rest) =
        append_assoc (encode now) (encode (pos n) ++ take n message) rest in
      let split2 : (encode (pos n) ++ take n message) ++ rest
          ≡ encode (pos n) ++ (take n message ++ rest) =
        append_assoc (encode (pos n)) (take n message) rest in
      let first : take 8 msg ≡ encode now =
        ap (take 8) split ∙ take-append_exact (encode now) _ 8 (length-encode now) in
      let after : drop 8 msg ≡ encode (pos n) ++ (take n message ++ rest) =
        ap (drop 8) split ∙ drop-append_exact (encode now) _ 8 (length-encode now) ∙ split2 in
      let second : take 8 (drop 8 msg) ≡ encode (pos n) =
        ap (take 8) after ∙ take-append_exact (encode (pos n)) _ 8 (length-encode (pos n)) in
      let tail : drop header_size msg ≡ take n message ++ rest =
        drop_twice 8 8 msg
        ∙ ap (drop 8) after
        ∙ drop-append_exact (encode (pos n)) _ 8 (length-encode (pos n)) in
      let time : decode (encode now) ≡ now = decode-encode now (of_not _ t) in
      let size : decode (encode (pos n)) ≡ pos n =
        decode-encode (pos n) (of_not _ (size_in_range n l)) in
      let room : n ≤ length (take n message ++ rest) =
        omega (arith, length-append (take n message) rest, length-take n message) in
      let copy : memcpy d.shared_memory.bytes (take n message ++ rest) (pos n)
          ≡ some (take n message ++ drop n d.shared_memory.bytes) =
        memcpy_lem d.shared_memory.bytes (take n message ++ rest) n b room
        ∙ ap (λ x. some (x ++ drop n d.shared_memory.bytes)) (head_of n message rest a) in
      let nonneg : ltb_ℤ (pos n) (pos 0) ≡ false = ground arith in
      simp (write_contents, r, s, long, whole, first, second, tail, time, size, nonneg, copy)

-- The validity that a message of an age should have
abbrev pub ByAge : ℤ → ℤ → Validity → Type 0
ByAge age refresh v = ((v ≡ valid) × (age ≤ℤ refresh)) ⊎ ((v ≡ invalid) × (refresh <ℤ age))

validity_of-ByAge : (age refresh : ℤ) → ByAge age refresh (validity_of age refresh)
validity_of-ByAge age refresh = elim (Bool-cases (ltb_ℤ refresh age)) [
  | inl t ↦ rw t (inr (refl, ground arith))
  | inr f ↦ rw f (inl (refl, ground arith))
]

-- A message of n bytes, from 1 to the port's maximum, written to a port that may send at a time that 64
-- bits hold; read into a transfer buffer that has room for the port's largest message; written from it to
-- a port that may receive and whose memory has room; and read from that into a block that has room. All
-- four calls return NO_ERROR, READ_LENGTH is the header and the message, and the reader gets LENGTH n,
-- the bytes that were written, and a validity: VALID if no more time passed from the write to the read
-- than the receiver's refresh period, and INVALID if more did.
pub write_message-read_message :
    (words : Words) (now later : ℤ) (message buf out : List ℕ) (n m k : ℕ) (s d : SamplingPort)
    → s.ready_or_not ≡ true
    → is_dest s.port_direction ≡ false
    → s.max_message_size ≡ pos m
    → n ≤ length s.shared_memory.bytes
    → d.ready_or_not ≡ true
    → is_source d.port_direction ≡ false
    → n ≤ length d.shared_memory.bytes
    → 0 < n
    → n ≤ m
    → m ≤ system_limit_max_sampling_message_size
    → n ≤ length message
    → in_range now ≡ true
    → m + header_size ≤ k
    → header_size + n ≤ length buf
    → n ≤ length out
    → (s1 : SamplingPort) × (bytes : List ℕ) × (d1 : SamplingPort) × (d2 : SamplingPort)
      × (v : Validity) × (write_message now message (pos n) s ≡ done (no_error, s1))
      × (read_contents words buf (pos k) s1 ≡ done (no_error, header_size + n, bytes))
      × (write_contents words bytes (pos (header_size + n)) d ≡ done (no_error, d1))
      × (read_message later out d1
          ≡ done (no_error, some (pos n, v), take n message ++ drop n out, d2))
      × ByAge (later -ℤ now) d.refresh_period v
write_message-read_message words now later message buf out n m k s d rs ds ms bs rd sd bd z a l c t
      b e f =
    let sent : SamplingPort = record s {
      shared_memory = record {
        absolute_time_written = now;
        message_size = pos n;
        bytes = take n message ++ drop n s.shared_memory.bytes;
      };
    } in
    let got : SamplingPort = record d {
      shared_memory = record {
        absolute_time_written = now;
        message_size = pos n;
        bytes = take n message ++ drop n d.shared_memory.bytes;
      };
    } in
    let small : n ≤ system_limit_max_sampling_message_size = omega (arith, a, l) in
    (
      sent,
      contents words now n message ++ drop (header_size + n) buf,
      got,
      record got { last_validity = validity_of (later -ℤ now) d.refresh_period },
      validity_of (later -ℤ now) d.refresh_period,
      write_message_known now message n m s rs ds ms a c bs,
      read_contents_known words now message (drop n s.shared_memory.bytes) buf n m k sent rs ds ms
          refl c small b e,
      write_contents_known words now message (drop (header_size + n) buf) n (header_size + n) d rd
          sd t c small bd refl,
      read_message_known later out (drop n d.shared_memory.bytes) n message got rd sd refl refl z c
          f,
      validity_of-ByAge (later -ℤ now) d.refresh_period,
    )
