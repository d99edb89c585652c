-- ===== src/Framing/Chunks.antt =====
-- How the stream is cut into reads does not matter: the bytes that stay are taken up again.
use db_query_optimizer.Common.{
  some, ◌==◌, ℕ, zero, suc, ◌+◌, ◌≤◌, true, false, List, [], ◌∷◌, ◌++◌, length, take, drop, ◌≡◌,
  refl, sym, ap, ap₂, ◌∙◌, arith, length-append, Bool-cases, inl, inr,
}
use db_query_optimizer.Common.Text.{Text}
use db_query_optimizer.Framing.{
  start_delimiter, finds_delimiter, uint32_at, payload_size, Message, Extraction, has_message,
  message_of, behind_message, extract_loop, extract_items,
}

pub take-append : (n : ℕ) (a b : Text) → n ≤ length a → take n (a ++ b) ≡ take n a
take-append zero a b h = refl
take-append (suc n) [] b h = absurd (omega arith)
take-append (suc n) (x ∷ a) b h = ap (λ t. x ∷ t) (take-append n a b (omega arith))

pub drop-append : (n : ℕ) (a b : Text) → n ≤ length a → drop n (a ++ b) ≡ drop n a ++ b
drop-append zero a b h = refl
drop-append (suc n) [] b h = absurd (omega arith)
drop-append (suc n) (x ∷ a) b h = drop-append n a b (omega arith)

length-drop : (n : ℕ) (a : Text) → n ≤ length a → length (drop n a) + n ≡ length a
length-drop zero a h = omega arith
length-drop (suc n) [] h = absurd (omega arith)
length-drop (suc n) (x ∷ a) h = omega (arith, length-drop n a (omega arith))

-- A whole message at the front.
fits : (a : Text) → has_message a ≡ true → payload_size a + 32 ≤ length a
unfolding has_message
fits a h = ground arith

-- What stays the same when bytes arrive behind a whole message.
module _ (a b : Text) (h : has_message a ≡ true) where
  enough : 32 ≤ length a
  enough = let f = fits a h in omega (arith, f)

  same_size : payload_size (a ++ b) ≡ payload_size a
  unfolding payload_size
  same_size = rw (take-append 32 a b enough) refl

  still : has_message (a ++ b) ≡ true
  unfolding has_message
  still = ground (arith, fits a h, same_size, length-append a b)

  inside : payload_size a ≤ length (drop 32 a)
  inside = let f = fits a h in omega (arith, f, length-drop 32 a enough)

  same_payload : take (payload_size (a ++ b)) (drop 32 (a ++ b)) ≡ take (payload_size a) (drop 32 a)
  same_payload =
      ap₂ (λ n t. take n t) same_size (drop-append 32 a b enough)
      ∙ take-append (payload_size a) (drop 32 a) b inside

  same_message : message_of (a ++ b) ≡ message_of a
  unfolding message_of
  same_message =
      ap₂ (λ x y. record { meta_info = x; payload = y }) (take-append 32 a b enough) same_payload

  behind-append : behind_message (a ++ b) ≡ behind_message a ++ b
  unfolding behind_message
  behind-append = rw same_size (drop-append (payload_size a + 32) a b (fits a h))

shorter : (a : Text) → has_message a ≡ true → length (behind_message a) + 32 ≤ length a
unfolding behind_message
shorter a h = let f = fits a h in omega (arith, f, length-drop (payload_size a + 32) a f)

-- The steps of the loop.
loop_more :
    (fuel : ℕ) (a : Text)
    → has_message a ≡ true
    → extract_loop (suc fuel) a ≡ record {
      messages = message_of a ∷ (extract_loop fuel (behind_message a)).messages;
      unprocessed = (extract_loop fuel (behind_message a)).unprocessed;
    }
unfolding extract_loop
loop_more fuel a h = rw h refl

pub loop_stop :
    (fuel : ℕ) (a : Text)
    → has_message a ≡ false
    → extract_loop fuel a ≡ record { messages = []; unprocessed = a }
unfolding extract_loop
loop_stop zero a h = refl
loop_stop (suc fuel) a h = rw h refl

-- A message before what the rest gives.
abbrev pub add_message : Message → Extraction → Extraction
add_message m e = record { messages = m ∷ e.messages; unprocessed = e.unprocessed }

pub loop_add :
    (fuel : ℕ) (a : Text)
    → has_message a ≡ true
    → extract_loop (suc fuel) a ≡ add_message (message_of a) (extract_loop fuel (behind_message a))
loop_add fuel a h = loop_more fuel a h

no_room : (a : Text) → has_message a ≡ true → length a ≤ 0 → ⊥
no_room a h k = let f = fits a h in omega (arith, f)

-- With fuel for every byte, more fuel changes nothing.
same_fuel : (f g : ℕ) (a : Text) → length a ≤ f → length a ≤ g → extract_loop f a ≡ extract_loop g a
same_fuel zero g a h k = elim (Bool-cases (has_message a)) [
  | inr partly ↦ loop_stop zero a partly ∙ sym (loop_stop g a partly)
  | inl whole ↦ absurd (no_room a whole h)
]
same_fuel (suc f) zero a h k = elim (Bool-cases (has_message a)) [
  | inr partly ↦ loop_stop (suc f) a partly ∙ sym (loop_stop zero a partly)
  | inl whole ↦ absurd (no_room a whole k)
]
same_fuel (suc f) (suc g) a h k = elim (Bool-cases (has_message a)) [
  | inr partly ↦ loop_stop (suc f) a partly ∙ sym (loop_stop (suc g) a partly)
  | inl whole ↦
      let s = shorter a whole in
      loop_add f a whole
      ∙ ap (add_message (message_of a))
          (same_fuel f g (behind_message a) (omega (arith, s)) (omega (arith, s)))
      ∙ sym (loop_add g a whole)
]

-- The messages of a first part before those of the rest.
abbrev pub then_extract : List Message → Extraction → Extraction
then_extract [] rest = rest
then_extract (m ∷ ms) rest = add_message m (then_extract ms rest)

-- The bytes that a first part leaves are taken up again with those that follow.
resume :
    (f g k : ℕ) (a b : Text)
    → length (a ++ b) ≤ f
    → length a ≤ g
    → length (a ++ b) ≤ k
    → extract_loop f (a ++ b)
      ≡ then_extract
          (extract_loop g a).messages
          (extract_loop k ((extract_loop g a).unprocessed ++ b))
resume f zero k a b hf hg hk = elim (Bool-cases (has_message a)) [
  | inr partly ↦ rw (loop_stop zero a partly) (same_fuel f k (a ++ b) hf hk)
  | inl whole ↦ absurd (no_room a whole hg)
]
resume zero (suc g) k a b hf hg hk = elim (Bool-cases (has_message a)) [
  | inr partly ↦ rw (loop_stop (suc g) a partly) (same_fuel zero k (a ++ b) hf hk)
  | inl whole ↦ absurd (no_room (a ++ b) (still a b whole) hf)
]
resume (suc f) (suc g) k a b hf hg hk = elim (Bool-cases (has_message a)) [
  | inr partly ↦ rw (loop_stop (suc g) a partly) (same_fuel (suc f) k (a ++ b) hf hk)
  | inl whole ↦
      let s = shorter a whole in
      let n = length-append a b in
      let m = length-append (behind_message a) b in
      rw (loop_more g a whole) (
        loop_add f (a ++ b) (still a b whole)
        ∙ ap₂ add_message (same_message a b whole) (
            ap (extract_loop f) (behind-append a b whole)
            ∙ resume f g k (behind_message a) b (omega (arith, s, n, m)) (omega (arith, s))
                (omega (arith, s, n, m))))
]

left_shorter : (f : ℕ) (a : Text) → length (extract_loop f a).unprocessed ≤ length a
left_shorter zero a = unfold extract_loop in omega arith
left_shorter (suc f) a = elim (Bool-cases (has_message a)) [
  | inr partly ↦ rw (loop_stop (suc f) a partly) (omega arith)
  | inl whole ↦
      rw (loop_more f a whole) (omega (arith, left_shorter f (behind_message a), shorter a whole))
]

four_bytes :
    (a b : Text)
    → (uint32_at a == start_delimiter) ≡ true
    → (uint32_at (a ++ b) == start_delimiter) ≡ true
unfolding uint32_at
four_bytes [] b h = cc
four_bytes (p ∷ []) b h = cc
four_bytes (p ∷ q ∷ []) b h = cc
four_bytes (p ∷ q ∷ r ∷ []) b h = cc
four_bytes (p ∷ q ∷ r ∷ s ∷ a) b h = h

-- A delimiter that was found is found when more bytes arrive.
still_found : (a b : Text) → finds_delimiter a ≡ true → finds_delimiter (a ++ b) ≡ true
unfolding finds_delimiter
still_found [] b h = cc
still_found (c ∷ a) b h = elim (Bool-cases (uint32_at (c ∷ a) == start_delimiter)) [
  | inl here ↦ ground (arith, four_bytes (c ∷ a) b here)
  | inr there ↦ ground (arith, still_found a b)
]

pub extracted :
    (a : Text) → finds_delimiter a ≡ true → extract_items a ≡ some (extract_loop (length a) a)
unfolding extract_items
extracted a h = rw h refl

-- The bytes that a read leaves.
abbrev pub leftover : Text → Text
leftover a = (extract_loop (length a) a).unprocessed

loops-append :
    (a b : Text)
    → extract_loop (length (a ++ b)) (a ++ b)
      ≡ then_extract
          (extract_loop (length a) a).messages
          (extract_loop (length (leftover a ++ b)) (leftover a ++ b))
loops-append a b =
    resume (length (a ++ b)) (length a) (length (a ++ b)) a b (omega arith) (omega arith)
      (omega arith)
    ∙ ap (then_extract (extract_loop (length a) a).messages) (
        same_fuel (length (a ++ b)) (length (leftover a ++ b)) _
          (omega
            (arith, left_shorter (length a) a, length-append a b, length-append (leftover a) b))
          (omega arith))

-- Where the first read holds a delimiter, and the bytes that it leaves, with the second read behind
-- them, hold one too, both extractions and that of the whole stream return, each scan for the delimiter
-- ending within its bytes; and the two give, one after the other, the messages and the leftover of the
-- whole.
pub extract_items-append :
    (a b : Text)
    → finds_delimiter a ≡ true
    → finds_delimiter (leftover a ++ b) ≡ true
    → (x : Extraction) × (y : Extraction) × (extract_items a ≡ some x)
      × (extract_items (x.unprocessed ++ b) ≡ some y)
      × (extract_items (a ++ b) ≡ some (then_extract x.messages y))
extract_items-append a b h k = (
  extract_loop (length a) a,
  extract_loop (length (leftover a ++ b)) (leftover a ++ b),
  extracted a h,
  extracted (leftover a ++ b) k,
  extracted (a ++ b) (still_found a b h) ∙ ap some (loops-append a b),
)
