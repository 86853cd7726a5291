-- ===== src/Context/Legacy.antt =====
-- `restoreFromConversation` of packages/core/src/context/conversationThread.ts. Whether a text holds
-- the marker of a legacy compaction, and the formatted content of the compaction that it becomes,
-- are arguments.
use kross.Base.{
  Bool-cases, if◌then◌else◌, ℕ, suc, ◌+◌, ◌≡◌, refl, inl, inr, Bool, true, false, none, List, [],
  ◌∷◌, arith, ℕ_discrete,
}
use kross.Base.Maps.{set}
use kross.Context.Thread.{
  ConversationThread, plain, clear, append_entry, append_plain, user_input, reply, committed,
}
use kross.Context.Tokens.{Text, LlmMessage, user, assistant}
use kross.Context.Edits.{add_compaction}

pub data DialogMessage : Type 0 where
  from_user from_assistant : Text → DialogMessage

pub record RestoredConversation : Type 0 where
  pub thread : ConversationThread
  pub restored_turn_count : ℕ
  pub converted_compaction : Bool

module _ (estimate : LlmMessage → ℕ) (is_legacy : Text → Bool) (converted : Text → Text) where
  abbrev restore_user : Text → ConversationThread → ConversationThread
  restore_user c t =
      append_plain estimate (t.turn_counter + 1) user_input (plain user c) (record t {
        turns = set ℕ_discrete (t.turn_counter + 1) committed t.turns;
        turn_counter = t.turn_counter + 1;
      })

  -- The turn is the one that was restored last.
  abbrev restore_reply : Text → ConversationThread → ConversationThread
  restore_reply c t =
      if is_legacy c then t else append_plain estimate t.turn_counter reply (plain assistant c) t

  abbrev with_turn : RestoredConversation → RestoredConversation
  with_turn r = record r { restored_turn_count = r.restored_turn_count + 1 }

  abbrev with_compaction : RestoredConversation → RestoredConversation
  with_compaction r = record r { converted_compaction = true }

  restore_dialog : List DialogMessage → ConversationThread → RestoredConversation
  unfolding append_entry add_compaction set ℕ_discrete
  restore_dialog [] t = record { thread = t; restored_turn_count = 0; converted_compaction = false }
  restore_dialog (from_assistant c ∷ ms) t = elim (is_legacy c) [
    | true ↦ with_compaction (restore_dialog ms (add_compaction estimate (converted c) none t))
    | false ↦ restore_dialog ms t
  ]
  restore_dialog (from_user c ∷ []) t = with_turn (restore_dialog [] (restore_user c t))
  restore_dialog (from_user c ∷ from_assistant d ∷ ms) t =
      with_turn (restore_dialog ms (restore_reply d (restore_user c t)))
  restore_dialog (from_user c ∷ from_user d ∷ ms) t =
      with_turn (restore_dialog (from_user d ∷ ms) (restore_user c t))

  unfoldable restore_from_conversation :
      List DialogMessage → ConversationThread → RestoredConversation
  unfolding clear restore_dialog
  restore_from_conversation ms t = restore_dialog ms (clear t)

  abbrev user_messages : List DialogMessage → ℕ
  user_messages [] = 0
  user_messages (from_user c ∷ ms) = suc (user_messages ms)
  user_messages (from_assistant c ∷ ms) = user_messages ms

  -- One turn is restored for each user message.
  restored_turn_count-restore_dialog :
      (ms : List DialogMessage) (t : ConversationThread)
      → (restore_dialog ms t).restored_turn_count ≡ user_messages ms
  unfolding restore_dialog
  restored_turn_count-restore_dialog [] t = refl
  restored_turn_count-restore_dialog (from_assistant c ∷ ms) t = elim (Bool-cases (is_legacy c)) [
    | inl e ↦
        rw (restore_dialog, e)
          (restored_turn_count-restore_dialog ms (add_compaction estimate (converted c) none t))
    | inr e ↦ rw (restore_dialog, e) (restored_turn_count-restore_dialog ms t)
  ]
  restored_turn_count-restore_dialog (from_user c ∷ []) t = omega arith
  restored_turn_count-restore_dialog (from_user c ∷ from_assistant d ∷ ms) t =
      omega (arith, restored_turn_count-restore_dialog ms (restore_reply d (restore_user c t)))
  restored_turn_count-restore_dialog (from_user c ∷ from_user d ∷ ms) t =
      omega (arith, restored_turn_count-restore_dialog (from_user d ∷ ms) (restore_user c t))
