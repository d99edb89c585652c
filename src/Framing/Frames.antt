-- ===== src/Framing/Frames.antt =====
-- The messages of a stream that a sender has put together, as the receiver takes them out.
use mathlib.Core.List.{append_assoc}
use db_query_optimizer.Common.{
  refl, zero, some, sym, ◌+◌, suc, ◌∙◌, length-append, ap, take, true, ap₂, arith, false, [], ◌≡◌,
  ◌≤◌, length, All, ◌++◌, drop, ◌∷◌, List, ℕ,
}
use db_query_optimizer.Common.Text.{Text}
use db_query_optimizer.Framing.{
  extract_loop, extract_items, start_delimiter, message_of, payload_size, has_message,
  behind_message, uint32_at, finds_delimiter, Message,
}
use db_query_optimizer.Framing.Chunks.{
  take-append, drop-append, loop_add, loop_stop, extracted, add_message,
}

-- A message as it is sent: 32 bytes of meta info that start with the delimiter and give the payload's
-- size.
pub record IsFrame (m : Message) : Type 0 where
  pub whole : length m.meta_info ≡ 32
  pub delimited : uint32_at m.meta_info ≡ start_delimiter
  pub sized : uint32_at (drop 8 m.meta_info) ≡ length m.payload

-- The bytes of messages, one after the other, before some rest.
unfoldable pub stream : List Message → Text → Text
stream [] rest = rest
stream (m ∷ ms) rest = m.meta_info ++ (m.payload ++ stream ms rest)

take_all : (n : ℕ) (a : Text) → length a ≡ n → take n a ≡ a
take_all zero [] h = refl
take_all zero (x ∷ a) h = absurd (omega arith)
take_all (suc n) [] h = absurd (omega arith)
take_all (suc n) (x ∷ a) h = ap (λ t. x ∷ t) (take_all n a (omega arith))

drop_all : (n : ℕ) (a : Text) → length a ≡ n → drop n a ≡ []
drop_all zero [] h = refl
drop_all zero (x ∷ a) h = absurd (omega arith)
drop_all (suc n) [] h = absurd (omega arith)
drop_all (suc n) (x ∷ a) h = drop_all n a (omega arith)

take_front : (n : ℕ) (a b : Text) → length a ≡ n → take n (a ++ b) ≡ a
take_front n a b h = take-append n a b (omega arith) ∙ take_all n a h

drop_front : (n : ℕ) (a b : Text) → length a ≡ n → drop n (a ++ b) ≡ b
drop_front n a b h = drop-append n a b (omega arith) ∙ ap (λ t. t ++ b) (drop_all n a h)

-- A frame at the front of the buffer.
module _ (m : Message) (s : Text) (frame : IsFrame m) where
  buffer : Text
  buffer = m.meta_info ++ (m.payload ++ s)

  size_of_frame : payload_size buffer ≡ length m.payload
  unfolding payload_size buffer
  size_of_frame =
      ap (λ t. uint32_at (drop 8 t)) (take_front 32 m.meta_info (m.payload ++ s) frame.whole)
      ∙ frame.sized

  frame_fits : has_message buffer ≡ true
  unfolding has_message buffer
  frame_fits = ground (
    arith,
    size_of_frame,
    frame.whole,
    length-append m.meta_info (m.payload ++ s),
    length-append m.payload s,
  )

  behind_header : drop 32 buffer ≡ m.payload ++ s
  unfolding buffer
  behind_header = drop_front 32 m.meta_info (m.payload ++ s) frame.whole

  message_of_frame : message_of buffer ≡ m
  unfolding message_of buffer
  message_of_frame =
      ap₂ (λ x y. record { meta_info = x; payload = y })
        (take_front 32 m.meta_info (m.payload ++ s) frame.whole)
        (ap₂ (λ n t. take n t) size_of_frame behind_header
          ∙ take_front (length m.payload) m.payload s refl)

  behind_frame : behind_message buffer ≡ s
  unfolding behind_message buffer
  behind_frame =
      ap (λ t. drop (payload_size buffer + 32) t) (sym (append_assoc m.meta_info m.payload s))
      ∙ drop_front (payload_size buffer + 32) (m.meta_info ++ m.payload) s
          (omega (arith, length-append m.meta_info m.payload, size_of_frame, frame.whole))

frames_out :
    (ms : List Message) (rest : Text) (fuel : ℕ)
    → length (stream ms rest) ≤ fuel
    → All IsFrame ms
    → has_message rest ≡ false
    → extract_loop fuel (stream ms rest) ≡ record { messages = ms; unprocessed = rest }
unfolding stream buffer
frames_out [] rest fuel h all last = loop_stop fuel rest last
frames_out (m ∷ ms) rest zero h (frame, all) last =
    absurd (omega (arith, frame.whole, length-append m.meta_info (m.payload ++ stream ms rest)))
frames_out (m ∷ ms) rest (suc fuel) h (frame, all) last =
    let s = stream ms rest in
    loop_add fuel (m.meta_info ++ (m.payload ++ s)) (frame_fits m s frame)
    ∙ ap₂ add_message (message_of_frame m s frame) (
        ap (extract_loop fuel) (behind_frame m s frame)
        ∙ frames_out ms rest fuel
            (omega (
              arith,
              frame.whole,
              length-append m.meta_info (m.payload ++ s),
              length-append m.payload s,
            ))
            all last)

starts_delimited : (m : Message) (s : Text) → IsFrame m → finds_delimiter (m.meta_info ++ s) ≡ true
unfolding finds_delimiter uint32_at
starts_delimited m s frame = go m.meta_info frame.whole frame.delimited
  where
    go :
        (t : Text) → length t ≡ 32 → uint32_at t ≡ start_delimiter → finds_delimiter (t ++ s) ≡ true
    go (a ∷ b ∷ c ∷ d ∷ t) h k = rw k refl
    go [] h k = absurd (omega arith)
    go (a ∷ []) h k = absurd (omega arith)
    go (a ∷ b ∷ []) h k = absurd (omega arith)
    go (a ∷ b ∷ c ∷ []) h k = absurd (omega arith)

-- A stream of one or more messages as they are sent, each with its delimiter and its size in its 32
-- bytes of meta info, with the part of a further message behind them, is taken apart into just these
-- messages, in order, and that part stays.
pub extract_items-stream :
    (m : Message) (ms : List Message) (rest : Text)
    → All IsFrame (m ∷ ms)
    → has_message rest ≡ false
    → extract_items (stream (m ∷ ms) rest) ≡ some (record { messages = m ∷ ms; unprocessed = rest })
unfolding stream
extract_items-stream m ms rest (frame, all) last =
    extracted (stream (m ∷ ms) rest) (starts_delimited m (m.payload ++ stream ms rest) frame)
    ∙ ap some
        (frames_out (m ∷ ms) rest (length (stream (m ∷ ms) rest)) (omega arith) (frame, all) last)
