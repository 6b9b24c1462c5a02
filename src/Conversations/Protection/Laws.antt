-- ===== src/Conversations/Protection/Laws.antt =====
-- What apps/services/conversation-runtime/src/message-protection.ts promises: a text comes back.
use customer_service_os_lite.Common.{
  ◌≡◌, refl, sym, ap, subst, ◌∙◌, not, some, String, str_eq_iff, ◌==◌, Result, ok, throw_if-eq-ok,
  >>=-eq-ok, ok-injective, arith,
}
use customer_service_os_lite.Common.Lists.{length}
use customer_service_os_lite.Conversations.Types.{Bytes, ProtectedMessage, ConversationError}
use customer_service_os_lite.Conversations.Protection.{
  Crypto, protect_message, unprotect_message, create_message_protector, create_message_unprotector,
  check_options,
}

-- What Node documents, of one text: its bytes decode to it, which they do where the text is well-formed
-- Unicode, and what AES-256-GCM has sealed under this key and vector it opens under them.
pub record IsReversible (crypto : Crypto) (key vector : Bytes) (text : String) : Type 0 where
  pub decoded : crypto.decode (crypto.encode text) ≡ text
  pub decrypted :
      crypto.decrypt key vector
        (crypto.encrypt key vector (crypto.encode text)).0
        (crypto.encrypt key vector (crypto.encode text)).1
      ≡ some (crypto.encode text)

module _ (crypto : Crypto) (key : Bytes) (version : String) (vector : Bytes) (text : String) where
  abbrev sealed : ProtectedMessage
  sealed = record {
    ciphertext = (crypto.encrypt key vector (crypto.encode text)).0;
    initialization_vector = vector;
    authentication_tag = (crypto.encrypt key vector (crypto.encode text)).1;
    plaintext_sha256 = crypto.sha256 (crypto.encode text);
    plaintext_byte_length = length (crypto.encode text);
    encryption_key_version = version;
  }

  protect_message-is :
      (m : ProtectedMessage) → protect_message crypto key version vector text ≡ ok m → m ≡ sealed
  unfolding protect_message
  protect_message-is m h =
      let (good, is) =
        throw_if-eq-ok (not (length vector == 12)) ConversationError.bad_initialization_vector _
          h in
      sym (ok-injective is)

  unprotect-sealed :
      IsReversible crypto key vector text → unprotect_message crypto key version sealed ≡ ok text
  unfolding unprotect_message
  unprotect-sealed laws =
      let same = (str_eq_iff version version).1 refl in
      let opens = laws.decrypted in let reads = laws.decoded in ground arith

  pub unprotect-protect :
      (m : ProtectedMessage)
      → IsReversible crypto key vector text
      → protect_message crypto key version vector text ≡ ok m
      → unprotect_message crypto key version m ≡ ok text
  unprotect-protect m laws h =
      subst (λ x. unprotect_message crypto key version x ≡ ok text) (sym (protect_message-is m h))
        (unprotect-sealed laws)

  -- A protected text comes back: where a protector and an unprotector are made of one key and one key
  -- version, and the text and its sealed bytes can be decoded and decrypted, what the first makes of a text the
  -- second turns into that text.
  pub unprotector-protector :
      (protect : Bytes → String → Result ConversationError ProtectedMessage)
      (unprotect : ProtectedMessage → Result ConversationError String) (m : ProtectedMessage)
      → IsReversible crypto key vector text
      → create_message_protector crypto key version ≡ ok protect
      → create_message_unprotector crypto key version ≡ ok unprotect
      → protect vector text ≡ ok m
      → unprotect m ≡ ok text
  unfolding create_message_protector create_message_unprotector
  unprotector-protector protect unprotect m laws made made' h =
      let (checked, h1, is) = >>=-eq-ok (check_options crypto key version) _ made in
      let (checked', h2, is') = >>=-eq-ok (check_options crypto key version) _ made' in
      let sealing : protect_message crypto key version vector text ≡ ok m =
        ap (λ (f : Bytes → String → Result ConversationError ProtectedMessage). f vector text)
          (ok-injective is)
        ∙ h in
      ap (λ (f : ProtectedMessage → Result ConversationError String). f m) (sym (ok-injective is'))
      ∙ unprotect-protect m laws sealing
