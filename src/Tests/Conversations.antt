-- ===== src/Tests/Conversations.antt =====
-- Tests of apps/services/conversation-runtime/src: a conversation is created, and takes a message.
use customer_service_os_lite.Common.{
  ℕ, ◌+◌, ◌-◌, ◌≡◌, refl, none, some, List, [], ◌∷◌, ◌++◌, map, String, codes, decimal, ok, Result,
  ltb, if◌then◌else◌,
}
use customer_service_os_lite.Common.Lists.{length}
use customer_service_os_lite.Common.Lists.Laws.{count_from}
use customer_service_os_lite.Common.Sort.{sort_by, leb_string}
use customer_service_os_lite.Common.Dates.{at}
use customer_service_os_lite.Conversations.Types.{
  Bytes, AccessContext, Channel, ProtectedMessage, TranscriptMessage, ConversationTranscript,
  SenderKind, ConversationStatus, ControlMode, CreateConversationRecord, AppendMessageRecord,
  AppendStatus, AppendResult, ConversationError,
}
use customer_service_os_lite.Conversations.Protection.{
  Crypto, protect_message, unprotect_message, create_message_protector, create_message_unprotector,
}
use customer_service_os_lite.Conversations.Protection.Laws.{IsReversible, unprotector-protector}
use customer_service_os_lite.Conversations.Database.{
  Database, insert_conversation, insert_payload, insert_message, insert_outbox, insert_idempotency,
  insert_idempotency_if_absent,
}
use customer_service_os_lite.Conversations.Append.{
  key_in, accept_options, append_work, accept_message,
}
use customer_service_os_lite.Conversations.Append.Twice.{accept_message_twice}
use customer_service_os_lite.Conversations.Service.{Environment, State, MessageInput, send}
use customer_service_os_lite.Conversations.Service.Laws.{IsSafe, send-IsSafe}
use customer_service_os_lite.Conversations.Repository.{read_conversation}
use customer_service_os_lite.Conversations.Numbering.{
  messages_of, message_reference, event_reference,
}
use customer_service_os_lite.Conversations.Run.{Command, run_commands, empty}
use customer_service_os_lite.Conversations.Transcript.{outbox_complete, transcript_numbered}
use customer_service_os_lite.Conversations.Transcript.Append.{accept_message-read}

-- A cipher that moves every byte by one, for texts "" and "hello".
abbrev crypto : Crypto
crypto = record {
  encode = codes;
  decode = λ bytes. if ltb (length bytes) 5 then "" else "hello";
  encrypt =
      λ key vector plaintext. (map (λ (b : ℕ). b + 1) plaintext, vector ++ 1 ∷ 2 ∷ 3 ∷ 4 ∷ []);
  decrypt = λ key vector ciphertext tag. some (map (λ (b : ℕ). b - 1) ciphertext);
  sha256 = λ bytes. "digest";
  trim = λ text. text;
}

abbrev vector : Bytes
vector = count_from 1 12

abbrev key : Bytes
key = count_from 1 32

abbrev context : AccessContext
context = record {
  tenant_id = "t";
  environment_id = "e";
  subject_customer_id = "c-1";
  routing_epoch = 1;
  request_id = "q";
  trace_id = "trace";
}

abbrev sealed : ProtectedMessage
sealed = record {
  ciphertext = map (λ (b : ℕ). b + 1) (codes "hello");
  initialization_vector = vector;
  authentication_tag = vector ++ 1 ∷ 2 ∷ 3 ∷ 4 ∷ [];
  plaintext_sha256 = "digest";
  plaintext_byte_length = 5;
  encryption_key_version = "v1";
}

abbrev creation : CreateConversationRecord
creation = record {
  context = context;
  conversation_id = "conv";
  idempotency_key = "k0";
  canonical_request_hash = "h0";
  channel = Channel.web;
  created_at = 1;
}

abbrev message : AppendMessageRecord
message = record {
  context = context;
  conversation_id = "conv";
  message_id = "m1";
  payload_id = "p1";
  event_id = "e1";
  idempotency_key = "k1";
  canonical_request_hash = "h1";
  client_message_id = "client-1";
  protected_message = sealed;
  occurred_at = 2;
}

abbrev commands : List Command
commands = Command.create creation ∷ Command.accept message ∷ []

abbrev unprotect : ProtectedMessage → Result ConversationError String
unprotect = unprotect_message crypto key "v1"

abbrev said : TranscriptMessage
said = record {
  message_id = "m1";
  sequence_number = 1;
  sender_kind = SenderKind.end_customer;
  text = "hello";
  created_at = at 2;
  refund_workflow_id = none;
}

abbrev quiet : ConversationTranscript
quiet = record {
  conversation_id = "conv";
  status = ConversationStatus.is_open;
  control_mode = ControlMode.ai;
  messages = [];
}

abbrev created : Database
created = run_commands (Command.create creation ∷ []) empty

reads_quiet : read_conversation unprotect context "conv" created ≡ ok quiet
unfolding run_commands read_conversation insert_conversation insert_idempotency_if_absent sort_by
    unprotect_message
reads_quiet = refl

accepted : AppendResult
accepted = record { status = AppendStatus.accepted; message_id = "m1"; sequence_number = 1 }

abbrev behind : Database
behind = (accept_message message created).1

accepts : accept_message message created ≡ (ok accepted, behind)
unfolding run_commands accepted append_work insert_conversation insert_idempotency_if_absent
    insert_payload insert_message insert_outbox insert_idempotency
accepts = refl

protects : protect_message crypto key "v1" vector "hello" ≡ ok sealed
unfolding protect_message
protects = refl

reversible : IsReversible crypto key vector "hello"
reversible = record { decoded = refl; decrypted = refl }

is_accepted : accepted.status ≡ AppendStatus.accepted
unfolding accepted
is_accepted = refl

accept_message-read_example :
    (m : TranscriptMessage) × (m.message_id ≡ accepted.message_id)
    × (m.sequence_number ≡ accepted.sequence_number)
    × (m.text ≡ "hello")
    × (read_conversation unprotect context "conv" behind
        ≡ ok (record quiet { messages = [] ++ m ∷ [] }))
accept_message-read_example =
    accept_message-read crypto key vector "v1" "hello" (Command.create creation ∷ []) message
      accepted behind quiet reversible protects accepts is_accepted reads_quiet

accept_message_twice_example :
    accept_message
      (record message { message_id = "m2"; payload_id = "p2"; event_id = "e2"; occurred_at = 9 })
      behind
    ≡ (ok (record accepted { status = AppendStatus.duplicate }), behind)
accept_message_twice_example =
    accept_message_twice message created behind accepted "m2" "p2" "e2" sealed 9 accepts

outbox_complete_example :
    map event_reference (run_commands commands empty).outbox
    ≡ map message_reference (run_commands commands empty).messages
outbox_complete_example = outbox_complete commands

reads_said :
    read_conversation unprotect context "conv" (run_commands commands empty)
    ≡ ok (record quiet { messages = said ∷ [] })
unfolding run_commands read_conversation append_work insert_conversation
    insert_idempotency_if_absent insert_payload insert_message insert_outbox insert_idempotency
    sort_by unprotect_message
reads_said = refl

transcript_numbered_example :
    (1 ∷ [] ≡ count_from 1 1)
    × (1 ≡ length (messages_of (key_in context "conv") (run_commands commands empty).messages))
transcript_numbered_example =
    transcript_numbered unprotect commands context "conv" (record quiet { messages = said ∷ [] })
      reads_said

makes_protector : create_message_protector crypto key "v1" ≡ ok (protect_message crypto key "v1")
unfolding create_message_protector
makes_protector = refl

makes_unprotector :
    create_message_unprotector crypto key "v1" ≡ ok (unprotect_message crypto key "v1")
unfolding create_message_unprotector
makes_unprotector = refl

unprotector-protector_example : unprotect sealed ≡ ok "hello"
unprotector-protector_example =
    unprotector-protector crypto key "v1" vector "hello" (protect_message crypto key "v1") unprotect
      sealed reversible makes_protector makes_unprotector protects

abbrev environment : Environment
environment = record {
  crypto = crypto;
  ids = λ n. decimal n;
  now = λ n. n;
  vectors = λ n. vector;
  protect = protect_message crypto key "v1";
  unprotect = unprotect;
  stringify = λ entries. "{}";
  locale_le = leb_string;
}

abbrev input : MessageInput
input = record {
  context = context;
  conversation_id = "conv";
  idempotency_key = "k1";
  client_message_id = "client-1";
  text = "hello";
}

abbrev ready : State
ready = record { database = created; ids_taken = 7; clock_reads = 3; vectors_taken = 0 }

send-IsSafe_example :
    IsSafe environment accept_options input ready (send environment accept_options input ready)
send-IsSafe_example = send-IsSafe environment accept_options input ready
