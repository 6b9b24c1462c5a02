-- ===== src/Conversations/Protection.antt =====
-- apps/services/conversation-runtime/src/message-protection.ts. Node's ciphers, hashes and text
-- encodings are a parameter; the random initialization vector is an argument.
pub mod Laws
use customer_service_os_lite.Common.{
  ℕ, ◌≡◌, refl, Bool, true, false, not, Option, none, some, String, str_eq, ◌==◌, Result, ok, err,
  ◌>>=◌, ◌>>◌, throw_if, or_throw, throw_if-eq-ok, >>=-eq-ok, arith, subst,
}
use customer_service_os_lite.Common.Lists.{length}
use customer_service_os_lite.Conversations.Types.{Bytes, ProtectedMessage, ConversationError}

-- What the code takes from Node: `Buffer.from(text, 'utf8')` and `toString('utf8')`, AES-256-GCM,
-- whose `final` throws where the tag does not fit, SHA-256 in hexadecimal digits, and `trim`.
pub record Crypto : Type 0 where
  pub encode : String → Bytes
  pub decode : Bytes → String
  pub encrypt : (key vector plaintext : Bytes) → Bytes × Bytes
  pub decrypt : (key vector ciphertext tag : Bytes) → Option Bytes
  pub sha256 : Bytes → String
  pub trim : String → String

module _ (crypto : Crypto) where
  pub check_options : Bytes → String → Result ConversationError (Unit {0})
  check_options key key_version =
      throw_if (not (length key == 32)) ConversationError.bad_key
      >> throw_if (str_eq (crypto.trim key_version) "") ConversationError.bad_key_version

  -- The function that `createAesGcmMessageProtector` returns.
  unfoldable pub protect_message :
      Bytes → String → Bytes → String → Result ConversationError ProtectedMessage
  protect_message key key_version vector plaintext =
      let plaintext_bytes = crypto.encode plaintext in
      throw_if (not (length vector == 12)) ConversationError.bad_initialization_vector
      >> (let (ciphertext, tag) = crypto.encrypt key vector plaintext_bytes in
          ok (record {
            ciphertext = ciphertext;
            initialization_vector = vector;
            authentication_tag = tag;
            plaintext_sha256 = crypto.sha256 plaintext_bytes;
            plaintext_byte_length = length plaintext_bytes;
            encryption_key_version = key_version;
          }))

  unfoldable pub create_message_protector :
      Bytes
      → String
      → Result ConversationError (Bytes → String → Result ConversationError ProtectedMessage)
  unfolding check_options
  create_message_protector key key_version =
      check_options key key_version >> ok (protect_message key key_version)

  -- The function that `createAesGcmMessageUnprotector` returns.
  unfoldable pub unprotect_message :
      Bytes → String → ProtectedMessage → Result ConversationError String
  unprotect_message key key_version m =
      throw_if (not (str_eq m.encryption_key_version key_version))
        ConversationError.key_version_unavailable
      >> or_throw (crypto.decrypt key m.initialization_vector m.ciphertext m.authentication_tag)
          ConversationError.authentication_failed
      >>= λ plaintext_bytes. ok (crypto.decode plaintext_bytes)

  unfoldable pub create_message_unprotector :
      Bytes → String → Result ConversationError (ProtectedMessage → Result ConversationError String)
  unfolding check_options
  create_message_unprotector key key_version =
      check_options key key_version >> ok (unprotect_message key key_version)
