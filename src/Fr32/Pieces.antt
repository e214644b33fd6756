-- ===== src/Fr32/Pieces.antt =====
-- sector-storage/fr32/fr32.go: whole pieces, of any number of chunks.
use venus_sealer.Prelude.{
  ℕ, zero, suc, ◌+◌, ◌*◌, ◌≤◌, ◌≡◌, refl, sym, ap, ◌∙◌, List, [], ◌∷◌, ◌++◌, Option, some, length,
  arith,
}
use mathlib.Core.List.{append_assoc}
use venus_sealer.Fr32.{pad_chunk, unpad_chunk, pad, unpad, chunk_then}
use venus_sealer.Fr32.Shift.{AreBytes}
use venus_sealer.Fr32.Elements.{FieldElements, no_element, four_times}
use venus_sealer.Fr32.RoundTrip.{
  read_off, written, IsChunk, pad_chunk_lem, unpad_written, append_written, FieldElements-written,
}

-- The first `suc n` of enough bytes, the first apart.
record Front (n : ℕ) (xs : List ℕ) : Type 0 where
  head : ℕ
  tail : List ℕ
  rest : List ℕ
  parts : xs ≡ (head ∷ tail) ++ rest
  tail_length : length tail ≡ n
  bytes : AreBytes (head ∷ tail)
  rest_bytes : AreBytes rest
  rest_length : length xs ≡ suc n + length rest

front : (n : ℕ) (xs : List ℕ) → suc n ≤ length xs → AreBytes xs → Front n xs
front n [] long bytes = absurd (omega arith)
front zero (x ∷ xs) long bytes = record {
  head = x;
  tail = [];
  rest = xs;
  parts = refl;
  tail_length = refl;
  bytes = (bytes.0, tt);
  rest_bytes = bytes.1;
  rest_length = omega arith;
}
front (suc n) (x ∷ xs) long bytes =
    let f = front n xs (omega arith) bytes.1 in
    record {
      head = x;
      tail = f.head ∷ f.tail;
      rest = f.rest;
      parts = ap (λ zs. x ∷ zs) f.parts;
      tail_length = ap suc f.tail_length;
      bytes = (bytes.0, f.bytes);
      rest_bytes = f.rest_bytes;
      rest_length = omega (arith, f.rest_length);
    }

-- What is shown of a padded piece.
record IsPadded (n : ℕ) (xs : List ℕ) (out : List ℕ) : Type 0 where
  padded : pad n xs ≡ some out
  unpadded : unpad n out ≡ some xs
  elements : FieldElements (four_times n) out

-- The runs that `pad_chunk` reads, and what is left.
record ChunkOf (xs : List ℕ) : Type 0 where
  x0 : ℕ
  x1 : ℕ
  x2 : ℕ
  x3 : ℕ
  ys0 : List ℕ
  ys1 : List ℕ
  ys2 : List ℕ
  ys3 : List ℕ
  rest : List ℕ
  parts : xs ≡ read_off x0 x1 x2 x3 ys0 ys1 ys2 ys3 rest
  chunk : IsChunk x0 x1 x2 x3 ys0 ys1 ys2 ys3
  rest_bytes : AreBytes rest
  rest_length : length xs ≡ 127 + length rest

module _ (xs : List ℕ) (long : 127 ≤ length xs) where
  four_runs :
      (f0 : Front 31 xs) (f1 : Front 31 f0.rest) (f2 : Front 31 f1.rest) (f3 : Front 30 f2.rest)
      → ChunkOf xs
  four_runs f0 f1 f2 f3 = record {
    x0 = f0.head;
    x1 = f1.head;
    x2 = f2.head;
    x3 = f3.head;
    ys0 = f0.tail;
    ys1 = f1.tail;
    ys2 = f2.tail;
    ys3 = f3.tail;
    rest = f3.rest;
    parts =
        f0.parts
        ∙ ap (λ r. (f0.head ∷ f0.tail) ++ r)
            (f1.parts
              ∙ ap (λ r. (f1.head ∷ f1.tail) ++ r)
                  (f2.parts ∙ ap (λ r. (f2.head ∷ f2.tail) ++ r) f3.parts));
    chunk = record {
      length_0 = f0.tail_length;
      length_1 = f1.tail_length;
      length_2 = f2.tail_length;
      length_3 = f3.tail_length;
      bytes_0 = f0.bytes;
      bytes_1 = f1.bytes;
      bytes_2 = f2.bytes;
      bytes_3 = f3.bytes;
    };
    rest_bytes = f3.rest_bytes;
    rest_length = omega (arith, f0.rest_length, f1.rest_length, f2.rest_length, f3.rest_length);
  }

  after_two : (f0 : Front 31 xs) (f1 : Front 31 f0.rest) → ChunkOf xs
  after_two f0 f1 =
      let n1 = f0.rest_length in
      let n2 = f1.rest_length in
      let f2 = front 31 f1.rest (omega (arith, long)) f1.rest_bytes in
      four_runs f0 f1 f2 (front 30 f2.rest (omega (arith, long, f2.rest_length)) f2.rest_bytes)

  chunk_of : AreBytes xs → ChunkOf xs
  chunk_of bytes =
      let f0 = front 31 xs (omega (arith, long)) bytes in
      after_two f0 (front 31 f0.rest (omega (arith, long, f0.rest_length)) f0.rest_bytes)

chunk_then-some :
    (r : Option (List ℕ × List ℕ)) (bs rest cs : List ℕ) (k : List ℕ → Option (List ℕ))
    → r ≡ some (bs, rest)
    → k rest ≡ some cs
    → chunk_then r k ≡ some (bs ++ cs)
chunk_then-some r bs rest cs k read next = rw (read, chunk_then, next) refl

-- One chunk in front of a padded piece.
module _ (n : ℕ) (xs : List ℕ) (p : ChunkOf xs) (out : List ℕ) (o : IsPadded n p.rest out) where
  open p use {x0, x1, x2, x3, ys0, ys1, ys2, ys3, rest, parts, chunk}

  append_read_off : read_off x0 x1 x2 x3 ys0 ys1 ys2 ys3 [] ++ rest ≡ xs
  append_read_off = simp append_assoc (sym parts)

  chunk-IsPadded : IsPadded (suc n) xs (written x0 x1 x2 x3 ys0 ys1 ys2 ys3 out)
  unfolding pad unpad
  chunk-IsPadded = record {
    padded =
        chunk_then-some (pad_chunk xs) (written x0 x1 x2 x3 ys0 ys1 ys2 ys3 []) rest out (pad n)
          (ap pad_chunk parts ∙ pad_chunk_lem x0 x1 x2 x3 ys0 ys1 ys2 ys3 chunk rest) o.padded
        ∙ ap some (append_written x0 x1 x2 x3 ys0 ys1 ys2 ys3 chunk out);
    unpadded =
        chunk_then-some (unpad_chunk (written x0 x1 x2 x3 ys0 ys1 ys2 ys3 out))
          (read_off x0 x1 x2 x3 ys0 ys1 ys2 ys3 []) out rest (unpad n)
          (unpad_written x0 x1 x2 x3 ys0 ys1 ys2 ys3 chunk out) o.unpadded
        ∙ ap some append_read_off;
    elements =
        FieldElements-written x0 x1 x2 x3 ys0 ys1 ys2 ys3 chunk (four_times n) out o.elements;
  }

pad_all :
    (n : ℕ) (xs : List ℕ) → length xs ≡ n * 127 → AreBytes xs → (out : List ℕ) × IsPadded n xs out
unfolding pad unpad
pad_all zero [] len bytes = ([], record { padded = refl; unpadded = refl; elements = no_element })
pad_all zero (x ∷ xs) len bytes = absurd (omega arith)
pad_all (suc n) xs len bytes =
    let p = chunk_of xs (omega arith) bytes in
    let (out, o) = pad_all n p.rest (omega (arith, p.rest_length)) p.rest_bytes in
    (written p.x0 p.x1 p.x2 p.x3 p.ys0 p.ys1 p.ys2 p.ys3 out, chunk-IsPadded n xs p out o)

-- A piece of `n` times 127 bytes is padded without a panic. The result consists of `4 * n` groups of 32
-- bytes, each of which ends with a byte below 64, and `unpad` turns it back into the piece.
pub unpad-pad :
    (n : ℕ) (piece : List ℕ)
    → length piece ≡ n * 127
    → AreBytes piece
    → (out : List ℕ) × (pad n piece ≡ some out)
      × (unpad n out ≡ some piece)
      × FieldElements (four_times n) out
unpad-pad n piece len bytes =
    let (out, o) = pad_all n piece len bytes in (out, o.padded, o.unpadded, o.elements)
