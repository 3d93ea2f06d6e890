-- ===== src/Pam/Conv.antt =====
-- `_entrance_pam_conv` of src/daemon/entrance_pam.c: what it answers, and what it shows to the user.
use entrance.Common.{
  ℕ, ◌≡◌, List, [], ◌∷◌, ◌++◌, Option, none, some, Str, arith, slot_get, slot_get-slot_set,
  slot_set-slot_set, slot_set, slot_set_self, if◌then◌else◌, ltb, length, codes,
}
use entrance.Pam.{
  Pam, PamState, PamMessage, MessageStyle, prompt_echo_off, text_info, conv_message,
  entrance_pam_conv,
}

-- The response to one message, and the text that is shown to the user after it.
abbrev pub answer : Option Str → MessageStyle → Option Str
answer passwd prompt_echo_off = passwd
answer passwd _ = none

abbrev pub shown : Str → MessageStyle → Str → Str
shown sofar text_info text =
    (if ltb 1 (length sofar) then sofar ++ codes "<br/>" else sofar) ++ text
shown sofar _ text = sofar

abbrev pub answers : Option Str → List PamMessage → List (Option Str)
answers passwd [] = []
answers passwd (m ∷ ms) = answer passwd m.msg_style ∷ answers passwd ms

abbrev pub transcript : Str → List PamMessage → Str
transcript sofar [] = sofar
transcript sofar (m ∷ ms) = transcript (shown sofar m.msg_style m.msg) ms

abbrev pub with_msgs : PamState → ℕ → Pam → Str → PamState
with_msgs s id p text = record s { pams = slot_set s.pams id (record p { msgs = text }) }

module _ (id : ℕ) where
  conv_message_lem :
      (style : MessageStyle) (text : Str) (s : PamState) (p : Pam)
      → slot_get s.pams id ≡ some p
      → conv_message id style text s
        ≡ some (answer p.passwd style, with_msgs s id p (shown p.msgs style text))
  unfolding conv_message
  conv_message_lem text_info text s p e =
      let q : Pam = record p {
        msgs = if ltb 1 (length p.msgs) then p.msgs ++ codes "<br/>" else p.msgs;
      } in
      ground (
        arith,
        slot_get-slot_set s.pams id q e,
        slot_set-slot_set s.pams id q (record p { msgs = q.msgs ++ text }),
      )
  conv_message_lem _ text s p e = ground (arith, slot_set_self s.pams id p)

  -- The conversation answers every prompt for hidden input with the stored password and nothing
  -- else with anything, and joins the information texts.
  pub entrance_pam_conv_lem :
      (ms : List PamMessage) (s : PamState) (p : Pam)
      → slot_get s.pams id ≡ some p
      → entrance_pam_conv id ms s
        ≡ some (answers p.passwd ms, with_msgs s id p (transcript p.msgs ms))
  unfolding entrance_pam_conv
  entrance_pam_conv_lem [] s p e = ground (arith, slot_set_self s.pams id p)
  entrance_pam_conv_lem (m ∷ ms) s p e =
      let p' : Pam = record p { msgs = shown p.msgs m.msg_style m.msg } in
      ground (
        arith,
        conv_message_lem m.msg_style m.msg s p,
        entrance_pam_conv_lem ms (with_msgs s id p p'.msgs) p' (slot_get-slot_set s.pams id p' e),
        slot_set-slot_set s.pams id p' (record p { msgs = transcript p'.msgs ms }),
      )
