-- ===== src/Signaling/Frames/Chunks.antt =====
-- packages/node/src/signaling/handler.ts: the frame reader on a stream in chunks.
use pokapali.Prelude.{
  take, drop, length-drop, take-append, drop-append, take_all, drop_all, ℕ, zero, suc, ◌+◌, ◌/◌,
  ◌%◌, ◌<◌, ◌≤◌, ◌≡◌, refl, sym, ap, ◌∙◌, Bool-cases, inl, inr, none, some, List, [], ◌∷◌, ◌++◌,
  append-nil, append_assoc, length, length-append, leb, leb→le, le→leb, subst, some_inj,
  Option-cases, arith,
}
use pokapali.Facts.Types.{Bytes}
use pokapali.Signaling.Frames.{
  uint32, from_uint32, frame_length_prefix, next_frame, Frames, loop, take_frames, read_frames,
  joined, framed,
}

-- What a frame that is found says of the length that is read and of the bytes after it.
next_frame-inv :
    (a b c d : ℕ) (rest f r : Bytes)
    → next_frame (a ∷ b ∷ c ∷ d ∷ rest) ≡ some (f, r)
    → (from_uint32 a b c d ≤ length rest)
      × (take (from_uint32 a b c d) rest ≡ f)
      × (drop (from_uint32 a b c d) rest ≡ r)
unfolding next_frame
next_frame-inv a b c d rest f r h = elim (Bool-cases (leb (from_uint32 a b c d) (length rest))) [
  | inl q ↦
      let e = some_inj (rw q at h) in
      (leb→le (from_uint32 a b c d) (length rest) q, ap (λ x. x.0) e, ap (λ x. x.1) e)
  | inr q ↦ let e = rw q at h in cc
]

next_frame_shorter : (b f r : Bytes) → next_frame b ≡ some (f, r) → 4 + length r ≤ length b
unfolding next_frame
next_frame_shorter (a ∷ b ∷ c ∷ d ∷ rest) f r h =
    let inv = next_frame-inv a b c d rest f r h in
    let same = ap length inv.2 in let short = length-drop (from_uint32 a b c d) rest in omega arith
next_frame_shorter [] f r h = cc
next_frame_shorter (a ∷ []) f r h = cc
next_frame_shorter (a ∷ b ∷ []) f r h = cc
next_frame_shorter (a ∷ b ∷ c ∷ []) f r h = cc

next_frame-append :
    (b f r more : Bytes) → next_frame b ≡ some (f, r) → next_frame (b ++ more) ≡ some (f, r ++ more)
unfolding next_frame
next_frame-append (a ∷ b ∷ c ∷ d ∷ rest) f r more h =
    let inv = next_frame-inv a b c d rest f r h in
    let n = from_uint32 a b c d in
    let fits =
      le→leb n (length (rest ++ more))
        (subst (◌≤◌ n) (sym (length-append rest more)) (omega arith)) in
    rw (fits, take-append n rest more inv.0, drop-append n rest more inv.0, inv.1, inv.2) refl
next_frame-append [] f r more h = cc
next_frame-append (a ∷ []) f r more h = cc
next_frame-append (a ∷ b ∷ []) f r more h = cc
next_frame-append (a ∷ b ∷ c ∷ []) f r more h = cc

loop_stops : (n : ℕ) (b : Bytes) → next_frame b ≡ none → loop n b ≡ ([], b)
unfolding loop
loop_stops zero b h = refl
loop_stops (suc n) b h = rw (loop, h) refl

loop_turns :
    (n : ℕ) (b f r : Bytes)
    → next_frame b ≡ some (f, r)
    → loop (suc n) b ≡ (f ∷ (loop n r).0, (loop n r).1)
unfolding loop
loop_turns n b f r h = rw (loop, h) refl

next_frame_empty : (b : Bytes) → length b ≤ 0 → next_frame b ≡ none
unfolding next_frame
next_frame_empty [] h = refl
next_frame_empty (x ∷ b) h = absurd (omega arith)

loop_empty : (n : ℕ) (b : Bytes) → length b ≤ 0 → loop n b ≡ ([], b)
loop_empty n b h = loop_stops n b (next_frame_empty b h)

loop-enough : (m n : ℕ) (b : Bytes) → length b ≤ m → length b ≤ n → loop m b ≡ loop n b
loop-enough zero n b h k = loop_empty zero b h ∙ sym (loop_empty n b h)
loop-enough (suc m) zero b h k = loop_empty (suc m) b k ∙ sym (loop_empty zero b k)
loop-enough (suc m) (suc n) b h k = elim (Option-cases (next_frame b)) [
  | inl q ↦ loop_stops (suc m) b q ∙ sym (loop_stops (suc n) b q)
  | inr ((f, r), q) ↦
      let short = next_frame_shorter b f r q in
      let ih = loop-enough m n r (omega arith) (omega arith) in
      loop_turns m b f r q ∙ ap (λ l. (f ∷ l.0, l.1)) ih ∙ sym (loop_turns n b f r q)
]

take_frames-none : (b : Bytes) → next_frame b ≡ none → take_frames b ≡ ([], b)
unfolding take_frames
take_frames-none b h = loop_stops (length b) b h

take_frames-some :
    (b f r : Bytes)
    → next_frame b ≡ some (f, r)
    → take_frames b ≡ (f ∷ (take_frames r).0, (take_frames r).1)
unfolding take_frames
take_frames-some b f r h =
    let short = next_frame_shorter b f r h in
    loop-enough (length b) (suc (length b)) b (omega arith) (omega arith)
    ∙ loop_turns (length b) b f r h
    ∙ ap (λ l. (f ∷ l.0, l.1)) (loop-enough (length b) (length r) r (omega arith) (omega arith))

-- Taking the frames of a buffer and, when more has come, of what was left, takes the frames of all.
abbrev after : Frames → Bytes → Frames
after (frames, rest) more = let (next, left) = take_frames (rest ++ more) in (frames ++ next, left)

take_frames-append :
    (n : ℕ) (b more : Bytes) → length b ≤ n → take_frames (b ++ more) ≡ after (take_frames b) more
take_frames-append zero b more h = rw (take_frames-none b (next_frame_empty b h)) refl
take_frames-append (suc n) b more h = elim (Option-cases (next_frame b)) [
  | inl q ↦ rw (take_frames-none b q) refl
  | inr ((f, r), q) ↦
      let short = next_frame_shorter b f r q in
      take_frames-some (b ++ more) f (r ++ more) (next_frame-append b f r more q)
      ∙ ap (λ l. (f ∷ l.0, l.1)) (take_frames-append n r more (omega arith))
      ∙ ap (λ l. after l more) (sym (take_frames-some b f r q))
]

take_frames_done : (n : ℕ) (b : Bytes) → length b ≤ n → next_frame (take_frames b).1 ≡ none
take_frames_done zero b h = let q = next_frame_empty b h in rw (take_frames-none b q) q
take_frames_done (suc n) b h = elim (Option-cases (next_frame b)) [
  | inl q ↦ rw (take_frames-none b q) q
  | inr ((f, r), q) ↦
      let short = next_frame_shorter b f r q in
      rw (take_frames-some b f r q) (take_frames_done n r (omega arith))
]

-- However the stream is cut into chunks, the reader yields the frames of the bytes joined, and
-- keeps what comes after them.
read_frames-joined :
    (buffer : Bytes) (chunks : List Bytes)
    → next_frame buffer ≡ none
    → read_frames buffer chunks ≡ take_frames (buffer ++ joined chunks)
unfolding read_frames joined
read_frames-joined buffer [] h = rw append-nil (sym (take_frames-none buffer h))
read_frames-joined buffer (chunk ∷ chunks) h =
    let (frames, rest) = take_frames (buffer ++ chunk) in
    let done = take_frames_done (length (buffer ++ chunk)) (buffer ++ chunk) (omega arith) in
    ap (λ l. ((take_frames (buffer ++ chunk)).0 ++ l.0, l.1)) (read_frames-joined rest chunks done)
    ∙ sym (
        take_frames-append (length (buffer ++ chunk)) (buffer ++ chunk) (joined chunks)
          (omega arith))
    ∙ ap take_frames (append_assoc buffer chunk (joined chunks))

uint32-from :
    (n : ℕ)
    → n < 4294967296
    → from_uint32 (n / 16777216 % 256) (n / 65536 % 256) (n / 256 % 256) (n % 256) ≡ n
unfolding from_uint32
uint32-from n h = omega arith

next_frame-frame_length_prefix :
    (m rest : Bytes)
    → length m < 4294967296
    → next_frame (frame_length_prefix m ++ rest) ≡ some (m, rest)
unfolding next_frame frame_length_prefix uint32
next_frame-frame_length_prefix m rest h =
    let n = length m in
    let fits =
      le→leb n (length (m ++ rest)) (subst (◌≤◌ n) (sym (length-append m rest)) (omega arith)) in
    rw
      (
        uint32-from n h,
        fits,
        take-append n m rest (omega arith),
        drop-append n m rest (omega arith),
        take_all m,
        drop_all m,
      )
      refl

-- Messages of less than 2^32 bytes.
abbrev pub AllFit : List Bytes → Type 0
AllFit [] = Unit
AllFit (m ∷ ms) = (length m < 4294967296) × AllFit ms

take_frames-framed :
    (ms : List Bytes) (left : Bytes)
    → AllFit ms
    → next_frame left ≡ none
    → take_frames (framed ms ++ left) ≡ (ms, left)
unfolding framed
take_frames-framed [] left h done = take_frames-none left done
take_frames-framed (m ∷ ms) left h done =
    ap take_frames (append_assoc (frame_length_prefix m) (framed ms) left)
    ∙ take_frames-some (frame_length_prefix m ++ (framed ms ++ left)) m (framed ms ++ left)
        (next_frame-frame_length_prefix m (framed ms ++ left) h.0)
    ∙ ap (λ l. (m ∷ l.0, l.1)) (take_frames-framed ms left h.1 done)

-- Messages of less than 2^32 bytes each that are sent in frames, then bytes that do not hold a
-- whole frame: however the stream cuts them into chunks, the reader yields exactly the messages, in
-- order, and keeps the bytes left over.
pub read_frames-framed :
    (ms : List Bytes) (left : Bytes) (chunks : List Bytes)
    → AllFit ms
    → next_frame left ≡ none
    → joined chunks ≡ framed ms ++ left
    → read_frames [] chunks ≡ (ms, left)
unfolding next_frame
read_frames-framed ms left chunks h done same =
    read_frames-joined [] chunks refl ∙ ap take_frames same ∙ take_frames-framed ms left h done
