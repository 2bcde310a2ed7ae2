-- ===== src/Domain/Cursor/Progress.antt =====
-- What an acknowledgement does to a read cursor.
use orkiva.Shared.{trim, ℕ, ◌+◌, ◌<◌, ◌≤◌, Option, List, [], ◌∷◌, ok, err, ◌≡◌, refl, ◌↔◌, arith}
use orkiva.Domain.Errors.{
  Checked, Date, Number, nat, negative, not_integer, require_date, require_non_negative_integer,
  require_non_empty_string, cursor_regression,
}
use orkiva.Domain.Cursor.{
  CreateParticipantCursorInput, create_participant_cursor, ParticipantCursor, AcknowledgeReadInput,
  Acked, acknowledge_read, calculate_unread_count,
}

-- A new cursor is of the trimmed thread and agent, and stands before the first message.
pub create_participant_cursor_lem :
    (now : ℕ) (input : CreateParticipantCursorInput) {c : ParticipantCursor}
    → create_participant_cursor now input ≡ ok c
    → (c.thread_id ≡ trim input.thread_id)
      × (c.agent_id ≡ trim input.agent_id)
      × (c.last_read_seq ≡ 0)
unfolding create_participant_cursor require_non_empty_string require_date
create_participant_cursor_lem now input h = ground arith

-- An acknowledgement that is taken never moves the cursor back: it stands at the number that was
-- acknowledged, still of the same agent and thread.
pub acknowledge_read_forward :
    (now : ℕ) (c : ParticipantCursor) (input : AcknowledgeReadInput) {c' : ParticipantCursor}
    → acknowledge_read now c input ≡ ok c'
    → (c.last_read_seq ≤ c'.last_read_seq)
      × (input.last_read_seq ≡ nat c'.last_read_seq)
      × (c'.thread_id ≡ c.thread_id)
      × (c'.agent_id ≡ c.agent_id)
unfolding acknowledge_read require_non_negative_integer
acknowledge_read_forward now c input h = ground arith

-- A number behind the cursor is refused as a regression, whatever else is given.
pub acknowledge_read_regression :
    (now n : ℕ) (c : ParticipantCursor) (acked : Acked) (time : Option Date)
    → (acknowledge_read now c
          (record { last_read_seq = nat n; last_acked_message_id = acked; updated_at = time })
        ≡ err cursor_regression)
      ↔ (n < c.last_read_seq)
unfolding acknowledge_read require_non_negative_integer require_non_empty_string require_date
acknowledge_read_regression now n c acked time = (λ h. ground arith, λ h. ground arith)

-- Acknowledgements in order; a refused one leaves the cursor.
abbrev settle : ParticipantCursor → Checked ParticipantCursor → ParticipantCursor
settle c (ok c') = c'
settle c (err e) = c

unfoldable pub acknowledge_all :
    ℕ → ParticipantCursor → List AcknowledgeReadInput → ParticipantCursor
acknowledge_all now c [] = c
acknowledge_all now c (input ∷ inputs) =
    acknowledge_all now (settle c (acknowledge_read now c input)) inputs

settle-le :
    (now : ℕ) (c : ParticipantCursor) (input : AcknowledgeReadInput)
    → c.last_read_seq ≤ (settle c (acknowledge_read now c input)).last_read_seq
unfolding acknowledge_read
settle-le now c input = ground (arith)

-- Over any series of acknowledgements the cursor never moves back.
pub acknowledge_all_forward :
    (now : ℕ) (c : ParticipantCursor) (inputs : List AcknowledgeReadInput)
    → c.last_read_seq ≤ (acknowledge_all now c inputs).last_read_seq
unfolding acknowledge_all
acknowledge_all_forward now c [] = omega arith
acknowledge_all_forward now c (input ∷ inputs) = omega (
  arith,
  settle-le now c input,
  acknowledge_all_forward now (settle c (acknowledge_read now c input)) inputs,
)

-- The unread count of two numbers is what has to be added to the second to give the first, and
-- there is none exactly when one of them is no natural number or the second is the larger.
pub calculate_unread_count_iff :
    (latest last : Number) (d : ℕ)
    → (calculate_unread_count latest last ≡ ok d)
      ↔ ((m : ℕ) × (last ≡ nat m) × (latest ≡ nat (m + d)))
unfolding calculate_unread_count require_non_negative_integer
calculate_unread_count_iff latest last d =
    (there latest last, λ (m, p, q). rw (p, q) (ground arith))
  where
    there :
        (latest last : Number)
        → calculate_unread_count latest last ≡ ok d
        → (m : ℕ) × (last ≡ nat m) × (latest ≡ nat (m + d))
    there (nat n) (nat m) h = (m, refl, ground arith)
    there (nat n) (negative m) h = cc
    there (nat n) not_integer h = cc
    there (negative n) last h = cc
    there not_integer last h = cc
