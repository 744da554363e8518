-- ===== src/Social/Tests/Sent.antt =====
-- The owner is asked about a message and confirms it, at a small store.
use agent_comm.Prelude.{String, none, some, [], ◌∷◌, ◌≡◌, ◌≢◌, refl, ◌+◌}
use agent_comm.Json.{Fields, str, no_fields, field}
use agent_comm.Identity.{is_identifier, is_urn}
use agent_comm.Table.{get, put, rows}
use agent_comm.Remote.State.{Outcome, ok, raised}
use agent_comm.Store.State.{Approval, direct_message, Core, empty_core}
use agent_comm.Store.Records.{principal, check_owner, check_identifier}
use agent_comm.Store.Requests.{strip}
use agent_comm.Store.Prepare.{new_approval, request_approval}
use agent_comm.Store.Current.{apply_approval}
use agent_comm.Store.Confirm.{
  Display, Resolution, approved_once, begin_confirmation, finish_confirmation,
}
use agent_comm.Store.Spec.Sound.{IsSound}
use agent_comm.Store.Steps.{begin, next, confirmation_begun}
use agent_comm.Store.Fixture.{env, neighbours, others, store, at, owner, bob}
use agent_comm.Social.State.{Letter, Outgoing, Social}
use agent_comm.Social.Peers.{peer_blocked, can_send_to}
use agent_comm.Social.Outbox.{queue_social, message_values, utf8_length}
use agent_comm.Social.Mixin.{letter_of, apply_message, is_absent}
use agent_comm.Social.Ask.{message_payload, message_question, prepare_message}
use agent_comm.Social.Ask.Sent.{asked_is_sent}

abbrev hello : Fields
hello = field "recipient_urn" (str bob.urn) (field "text" (str "hello") no_fields)

abbrev greeting : Letter
greeting = record {
  message_id = "m1";
  recipient_urn = bob.urn;
  kind = "chat.message";
  conversation_id = none;
  in_reply_to = none;
  text = "hello";
}

abbrev question : Approval
question =
    new_approval env store (direct_message (message_payload greeting)) "m1" owner
      (message_question greeting) (7 + 900000000) 7

abbrev Place : Type 0
Place = Core × (Social × neighbours.State)

abbrev home : Place
home = at (record empty_core { contacts = ("bob", bob) ∷ [] })

carried : {A : Type 0} → Place → Outcome (A × Place) → Place
carried d (ok (a, d')) = d'
carried d (raised e) = d

abbrev prepared : Outcome (Approval × Place)
prepared = prepare_message env neighbours others hello "m1" owner 7 home

abbrev waiting : Place
waiting = carried home prepared

prepares : prepared ≡ ok (question, waiting)
unfolding carried prepare_message message_values request_approval message_payload message_question
    new_approval can_send_to strip utf8_length apply_approval apply_message letter_of check_owner
    principal rows get put check_identifier is_identifier is_urn peer_blocked queue_social is_absent
prepares = refl

is_new : (k : String) → get (home.0.approvals) k ≢ some question
unfolding get
is_new k e = cc

display_of : Outcome (Display × Place) → Display
display_of (ok (p, d)) = p
display_of (raised e) = record { token = ""; question = ""; expires_at = 0 }

-- The host displays the request, and the owner confirms it.
abbrev begun : Outcome (Display × Place)
begun = begin_confirmation env store question.approval_id owner "k" 8 waiting

abbrev shown : Place
shown = carried waiting begun

abbrev confirmed : Outcome (Resolution × Place)
confirmed = finish_confirmation env store question.approval_id "k" owner (some "yes") 9 shown

abbrev sent : Place
sent = carried shown confirmed

begins : begun ≡ ok (display_of begun, shown)
unfolding finish_confirmation begin_confirmation display_of carried prepare_message message_values
    request_approval message_payload message_question new_approval can_send_to strip utf8_length
    apply_approval apply_message letter_of check_owner principal rows get put check_identifier
    is_identifier is_urn peer_blocked queue_social is_absent
begins = refl

confirms : confirmed ≡ ok (approved_once, sent)
unfolding finish_confirmation begin_confirmation display_of carried prepare_message message_values
    request_approval message_payload message_question new_approval can_send_to strip utf8_length
    apply_approval apply_message letter_of check_owner principal rows get put check_identifier
    is_identifier is_urn peer_blocked queue_social is_absent
confirms = refl

home-IsSound : IsSound (home.0)
unfolding finish_confirmation begin_confirmation display_of carried prepare_message message_values
    request_approval message_payload message_question new_approval can_send_to strip utf8_length
    apply_approval apply_message letter_of check_owner principal rows get put check_identifier
    is_identifier is_urn peer_blocked queue_social is_absent
home-IsSound = record {
  tasks = tt;
  approvals = tt;
  sorted = tt;
  operations = tt;
  sorted_operations = tt;
}

asked_is_sent_example :
    (waiting.1.0 ≡ home.1.0)
    × (o : Outgoing) × (get (sent.1.0.outbox) "m1" ≡ some o)
    × (message_question greeting ≡ message_question o.letter)
    × (o.letter.message_id ≡ "m1")
    × (o.owner_id ≡ "alice")
unfolding new_approval
asked_is_sent_example =
    asked_is_sent env neighbours others hello "m1" owner owner "k" (some "yes") 7 9 home waiting
      shown sent question home-IsSound is_new prepares
      (next (begin waiting) (
        confirmation_begun question.approval_id owner "k" 8 waiting shown (display_of begun)
          begins))
      confirms
