-- ===== src/Store/Tests/Consent.antt =====
-- The theorems about the native confirmation at a small store.
use agent_comm.Prelude.{◌+◌, ◌<◌, min, true, some, ◌≡◌, ◌≢◌, ◌↔◌, refl}
use agent_comm.Json.{str}
use agent_comm.Table.{get, put, rows}
use agent_comm.Store.Records.{principal}
use agent_comm.Remote.State.{Outcome, ok, raised}
use agent_comm.Store.State.{TaskStatus, ApprovalStatus, Approval, Core}
use agent_comm.Store.Requests.{digest}
use agent_comm.Store.Confirm.{
  Display, consent, Resolution, approved_once, no_consent, unleased, is_leased, answer_of, awaited,
  begin_confirmation, finish_confirmation,
}
use agent_comm.Store.Confirm.Consent.{
  IsAnswerable, Ungranted, approved_needs_consent, finish_confirmation-Ungranted,
  begun_accepts_token,
}
use agent_comm.Store.Fixture.{env, mixins, owner, morning, core_with}

abbrev world : Core × mixins.State
world = (core_with TaskStatus.waiting ApprovalStatus.pending, tt)

begun : Outcome (Display × (Core × mixins.State))
begun = begin_confirmation env mixins "a1" owner "k" morning world

display_of : Outcome (Display × (Core × mixins.State)) → Display
display_of (ok (p, d)) = p
display_of (raised e) = record { token = ""; question = ""; expires_at = 0 }

shown : Outcome (Display × (Core × mixins.State)) → Core × mixins.State
shown (ok (p, d)) = d
shown (raised e) = world

finished : Outcome (Resolution × (Core × mixins.State)) → Core × mixins.State
finished (ok (r, d)) = d
finished (raised e) = world

begins :
    begin_confirmation env mixins "a1" owner "k" morning world ≡ ok (display_of begun, shown begun)
unfolding begin_confirmation display_of shown begun get principal rows
begins = refl

begun_accepts_token_example :
    (b : Approval) × (awaited env mixins "a1" (display_of begun).token owner ((shown begun).0)
      ≡ ok b)
    × ((is_leased (morning + 1) b ≡ true)
        ↔ (morning + 1 < min (display_of begun).expires_at (morning + 360000000)))
    × (digest env (str (display_of begun).token) ≢ digest env (str "other")
        → awaited env mixins "a1" "other" owner ((shown begun).0) ≢ ok b)
begun_accepts_token_example =
    begun_accepts_token env mixins "a1" owner "k" "other" morning (morning + 1) world (shown begun)
      (display_of begun) begins

abbrev yes_run : Outcome (Resolution × (Core × mixins.State))
yes_run = finish_confirmation env mixins "a1" "k" owner (some " yes ") (morning + 1) (shown begun)

approves :
    finish_confirmation env mixins "a1" "k" owner (some " yes ") (morning + 1) (shown begun)
    ≡ ok (approved_once, finished yes_run)
unfolding begin_confirmation finish_confirmation shown begun finished get principal rows put
approves = refl

approved_needs_consent_example :
    (a : Approval) × IsAnswerable env mixins "a1" "k" owner (morning + 1) (shown begun) a
    × (answer_of env (some " yes ") ≡ consent)
    × (get ((finished yes_run).0.approvals) "a1" ≡ some (unleased ApprovalStatus.approved a))
approved_needs_consent_example =
    approved_needs_consent env mixins "a1" "k" owner (some " yes ") (morning + 1) (shown begun)
      (finished yes_run) approves

abbrev vague_run : Outcome (Resolution × (Core × mixins.State))
vague_run = finish_confirmation env mixins "a1" "k" owner (some "maybe") (morning + 1) (shown begun)

hesitates :
    finish_confirmation env mixins "a1" "k" owner (some "maybe") (morning + 1) (shown begun)
    ≡ ok (no_consent, finished vague_run)
unfolding begin_confirmation finish_confirmation shown begun finished get principal rows put
hesitates = refl

not_approved : no_consent ≢ approved_once
not_approved e = cc

finish_confirmation-Ungranted_example :
    Ungranted env mixins ((shown begun).0) ((finished vague_run).0)
finish_confirmation-Ungranted_example =
    finish_confirmation-Ungranted env mixins "a1" "k" owner (some "maybe") (morning + 1)
      (shown begun) (finished vague_run) no_consent hesitates not_approved
