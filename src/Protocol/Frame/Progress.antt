-- ===== src/Protocol/Frame/Progress.antt =====
-- How far a read of a frame moves on the stream, whatever stands there.
use keva.Prelude.{
  ℕ, zero, suc, ◌+◌, ◌≤◌, ◌==◌, ◌≡◌, ◌⊎◌, inl, inr, refl, ap, ◌∙◌, ◌&&◌, Bool, true, false,
  Bool-cases, arith, Bytes, [], ◌∷◌, length, drop, length-drop, leb, leb→le, ltb, ok, err, panic,
  map_err, uint, Outcome, if◌then◌else◌,
}
use keva.Prelude.Reader.{eof, unexpected_eof, IoError, Read, fail_if, read_full, continue}
use keva.Protocol.Message.{decode_message}
use keva.Protocol.Frame.{FrameError, frame_too_large, io_error, malformed, read_frame}

drop-nil : (a : ℕ) → drop {A = ℕ} a [] ≡ []
unfolding drop
drop-nil zero = refl
drop-nil (suc a) = refl

pub drop-drop : (a b : ℕ) (s : Bytes) → drop a (drop b s) ≡ drop (b + a) s
unfolding drop
drop-drop a zero s = let e : 0 + a ≡ a = omega arith in rw e refl
drop-drop a (suc b) [] = let e : suc b + a ≡ suc (b + a) = omega arith in rw e (drop-nil a)
drop-drop a (suc b) (x ∷ s) =
    let e : suc b + a ≡ suc (b + a) = omega arith in rw e (drop-drop a b s)

drop_all : (s : Bytes) → [] ≡ drop (length s) s
unfolding drop
drop_all [] = refl
drop_all (x ∷ s) = drop_all s

-- `least` bytes of `s` at least are taken, or the stream fails.
pub record Moved {A : Type 0} (least : ℕ) (s : Bytes) (r : Outcome FrameError A) (rest : Bytes)
    : Type 0 where
  pub count : ℕ
  pub within : count ≤ length s
  pub is : rest ≡ drop count s
  pub far : (least ≤ count) ⊎ ((e : IoError) × (r ≡ err (io_error e)))

stay : {A : Type 0} (s : Bytes) (r : Outcome FrameError A) → Moved 0 s r s
unfolding drop
stay s r = record { count = 0; within = omega arith; is = refl; far = inl (omega arith) }

Moved-continue :
    {A B : Type 0} (k : ℕ) (s : Bytes) (r : Outcome FrameError A) (t : Bytes)
    (f : A → Read FrameError B)
    → Moved k s r t
    → ((a : A) (u : Bytes) → Moved 0 u (f a u).0 (f a u).1)
    → Moved k s (continue r f t).0 (continue r f t).1
Moved-continue k s (ok a) t f m next =
    let p = next a t in
    record {
      count = m.count + p.count;
      within = omega (arith, m.within, p.within, ap length m.is, length-drop m.count s);
      is = p.is ∙ ap (drop p.count) m.is ∙ drop-drop p.count m.count s;
      far = elim m.far [ inl le ↦ inl (omega (arith, le)) | inr (e, q) ↦ absurd (cc q) ];
    }
Moved-continue k s (err x) t f m next = record {
  count = m.count;
  within = m.within;
  is = m.is;
  far = elim m.far [ inl le ↦ inl le | inr (e, q) ↦ inr (e, cc q) ];
}
Moved-continue k s panic t f m next = record {
  count = m.count;
  within = m.within;
  is = m.is;
  far = elim m.far [ inl le ↦ inl le | inr (e, q) ↦ absurd (cc q) ];
}

Moved-read_full :
    (n : ℕ) (s : Bytes) → Moved n s (read_full io_error n s).0 (read_full io_error n s).1
unfolding read_full
Moved-read_full n s = elim (Bool-cases (leb n (length s))) [
  | inr short ↦ rw short (record {
    count = length s;
    within = omega arith;
    is = drop_all s;
    far = inr (if length s == 0 then eof else unexpected_eof, refl);
  })
  | inl enough ↦ rw enough (record {
    count = n;
    within = leb→le n (length s) enough;
    is = refl;
    far = inl (omega arith);
  })
]

Moved-fail_if :
    (b : Bool) (x : FrameError) (s : Bytes) → Moved 0 s (fail_if b x s).0 (fail_if b x s).1
Moved-fail_if true x s = stay s _
Moved-fail_if false x s = stay s _

weaker :
    {A : Type 0} (k : ℕ) (s : Bytes) (r : Outcome FrameError A) (t : Bytes)
    → Moved k s r t
    → Moved 0 s r t
weaker k s r t m = record { count = m.count; within = m.within; is = m.is; far = inl (omega arith) }

-- Whatever a stream holds, ReadFrame takes the header of a frame from it at least, or reports an
-- I/O error; what it leaves is an end of the stream.
pub read_frame-Moved :
    (max_len : ℕ) (s : Bytes) → Moved 4 s (read_frame max_len s).0 (read_frame max_len s).1
unfolding read_frame
read_frame-Moved max_len s =
    Moved-continue 4 s (read_full io_error 4 s).0 (read_full io_error 4 s).1 _ (Moved-read_full 4 s)
      λ head t.
        Moved-continue 0 t (fail_if (over head) frame_too_large t).0
          (fail_if (over head) frame_too_large t).1 _ (Moved-fail_if (over head) frame_too_large t)
          λ u t'.
            Moved-continue 0 t' (read_full io_error (uint head) t').0
              (read_full io_error (uint head) t').1 _
              (weaker (uint head) t' _ _ (Moved-read_full (uint head) t'))
              λ body v. stay v (map_err malformed (decode_message body))
  where
    over : Bytes → Bool
    over head = ltb 0 max_len && ltb max_len (uint head)
