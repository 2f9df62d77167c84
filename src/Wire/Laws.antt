-- ===== src/Wire/Laws.antt =====
-- What a serializer writes and a deserializer reads, as a list of bytes that composes.
use upkeeper.Prelude.{ℕ, ◌+◌, ◌-◌, ◌^◌, ◌<◌, arith, Bool, true, false}
use upkeeper.Prelude.{◌≡◌, refl, ap, ◌∙◌, List, [], ◌∷◌, ◌++◌, append-nil, append_assoc}
use upkeeper.Prelude.{length, length-append, take-append, drop-append, take_all, replicate, leb}
use upkeeper.Prelude.{if◌then◌else◌, le→leb}
use mathlib.Core.Path.{fun_ext}
use upkeeper.Wire.Outcome.{Outcome, ok, fault, overrun, bind, max_string_len}
use upkeeper.Wire.Write.{Out, Writer, put_bytes, be32, bool_byte, front}
use upkeeper.Wire.Write.{put_uint32, put_bool, put_string, put_array, put_data_from_buf}
use upkeeper.Wire.Write.{run_writer}
use upkeeper.Wire.Read.{Reader, fetch_uint32, fetch_bool, fetch_data, fetch_string}
use upkeeper.Wire.Bytes.{IsText, strnlen-text, front-length, from_be32-be32}

-- `w` does what one copy of `bs` does: it appends them, or runs over the end if they do not fit.
pub record Emits (w : Writer) (bs : List ℕ) : Type 0 where
  pub emits : (o : Out) → w o ≡ put_bytes bs o

-- `r` reads `a` from `bs`, whatever follows, and stops behind them.
pub record Reads {A : Type 0} (r : Reader A) (bs : List ℕ) (a : A) : Type 0 where
  pub reads : (rest : List ℕ) → r (bs ++ rest) ≡ ok (a, rest)

pub put_bytes-append :
    (xs ys : List ℕ) (o : Out) → bind (put_bytes xs o) (put_bytes ys) ≡ put_bytes (xs ++ ys) o
unfolding put_bytes
put_bytes-append xs ys o = ground (arith, length-append xs ys, append_assoc o.written xs ys)

pub Emits-seq :
    {v w : Writer} {xs ys : List ℕ} → Emits v xs → Emits w ys → Emits (λ o. bind (v o) w) (xs ++ ys)
Emits-seq {v} {w} {xs} {ys} p q = record {
  emits = λ o.
      ap (λ r. bind r w) (p.emits o)
      ∙ ap (bind (put_bytes xs o)) (fun_ext q.emits)
      ∙ put_bytes-append xs ys o;
}

pub Emits-uint32 : (v : ℕ) → Emits (put_uint32 v) (be32 v)
unfolding put_uint32
Emits-uint32 v = record { emits = λ o. refl }

pub Emits-bool : (b : Bool) → Emits (put_bool b) (bool_byte b ∷ [])
unfolding put_bool
Emits-bool b = record { emits = λ o. refl }

pub Emits-string : {s : List ℕ} → IsText s → Emits (put_string s) s
unfolding put_string
Emits-string {s} t = record {
  emits = λ o.
      ap (λ (l : List ℕ). put_bytes l o)
        (ap (λ (n : ℕ). front n s) (strnlen-text s max_string_len t.chars t.fits) ∙ front-length s);
}

pub Emits-array : {s : List ℕ} {n : ℕ} → IsText s → n ≡ length s → Emits (put_array s n) s
unfolding put_array
Emits-array {s} {n} t e = record {
  emits = λ o. rw (e, le→leb _ _ t.fits) (ap (λ (l : List ℕ). put_bytes l o) (front-length s));
}

pub Reads-bind :
    {A B : Type 0} {r : Reader A} (f : A → Reader B) {xs ys : List ℕ} {a : A} {b : B}
    → Reads r xs a
    → Reads (f a) ys b
    → Reads (λ l. bind (r l) (λ p. f p.0 p.1)) (xs ++ ys) b
Reads-bind {r = r} f {xs} {ys} {a} {b} p q = record {
  reads = λ rest.
      ap (λ l. bind (r l) (λ t. f t.0 t.1)) (append_assoc xs ys rest)
      ∙ ap (λ m. bind m (λ t. f t.0 t.1)) (p.reads (ys ++ rest))
      ∙ q.reads rest;
}

-- The last field: what follows builds the struct.
pub Reads-last :
    {A B : Type 0} {r : Reader A} (f : A → B) {xs : List ℕ} {a : A}
    → Reads r xs a
    → Reads (λ l. bind (r l) (λ p. ok (f p.0, p.1))) xs (f a)
Reads-last f p = record { reads = λ rest. ap (λ m. bind m (λ t. ok (f t.0, t.1))) (p.reads rest) }

pub Reads-uint32 : {v : ℕ} → v < 2 ^ 32 → Reads fetch_uint32 (be32 v) v
unfolding fetch_uint32 be32
Reads-uint32 {v} h = record { reads = λ rest. ap (λ (t : ℕ). ok (t, rest)) (from_be32-be32 v h) }

pub Reads-bool : (b : Bool) → Reads fetch_bool (bool_byte b ∷ []) b
unfolding fetch_bool bool_byte
Reads-bool true = record { reads = λ rest. refl }
Reads-bool false = record { reads = λ rest. refl }

pub Reads-data : {n : ℕ} {s : List ℕ} → n ≡ length s → Reads (fetch_data n) s s
unfolding fetch_data
Reads-data {n} {s} e = record {
  reads = λ rest.
      rw
        (
          e,
          le→leb (length s) (length (s ++ rest)) (omega (arith, length-append s rest)),
          take-append,
          drop-append,
        )
        refl;
}

pub Reads-string : {n : ℕ} {s : List ℕ} → n ≡ length s → IsText s → Reads (fetch_string n) s s
unfolding fetch_string
Reads-string {n} {s} e t = record {
  reads = λ rest. rw (e, le→leb _ _ t.fits) ((Reads-data refl).reads rest);
}

-- A buffer of `len` bytes takes what is emitted, with zeros behind it, if it has room for it.
pub run-Emits :
    {w : Writer} {bs : List ℕ} (len : ℕ)
    → Emits w bs
    → run_writer w len
      ≡ (if leb (length bs) len then ok (bs ++ replicate (len - length bs) 0) else fault overrun)
unfolding run_writer put_bytes
run-Emits {w} {bs} len p = rw (p.emits (record { written = []; room = len })) (ground arith)

-- The room that is left over stays zero.
pub run-Emits_slack :
    {w : Writer} {bs : List ℕ} {len : ℕ} (k : ℕ)
    → Emits w bs
    → len ≡ length bs + k
    → run_writer w len ≡ ok (bs ++ replicate k 0)
run-Emits_slack {w} {bs} {len} k p e =
    run-Emits len p
    ∙ rw (le→leb (length bs) len (omega arith))
        (ap (λ (n : ℕ). ok (bs ++ replicate n 0)) (let z : len - length bs ≡ k = omega arith in z))

pub run-Emits_exact :
    {w : Writer} {bs : List ℕ} {len : ℕ} → Emits w bs → len ≡ length bs → run_writer w len ≡ ok bs
run-Emits_exact {w} {bs} p e = run-Emits_slack 0 p (omega arith) ∙ ap ok (append-nil bs)

pub Emits-data_from_buf : {b : List ℕ} {n : ℕ} → n ≡ length b → Emits (put_data_from_buf b n) b
unfolding put_data_from_buf
Emits-data_from_buf {b} {n} e = record {
  emits = λ o.
      rw (e, le→leb (length b) (length b) (omega arith))
        (ap (λ (l : List ℕ). put_bytes l o) (take_all b));
}

pub Reads-lift :
    {A : Type 0} {m : Outcome A} {a : A} → m ≡ ok a → Reads (λ l. bind m (λ x. ok (x, l))) [] a
Reads-lift e = record { reads = λ rest. ap (λ m. bind m (λ x. ok (x, rest))) e }
