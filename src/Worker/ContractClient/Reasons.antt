-- ===== src/Worker/ContractClient/Reasons.antt =====
-- The reasons that the contract client gives: their length, and which of them the processor takes
-- for a wallet that has been sponsored already.
use arcpass.Prelude.{
  ℕ, zero, suc, ◌≤◌, ◌≡◌, refl, sym, ap, ◌∙◌, Bool, true, false, not, ◌&&◌, ◌||◌, Option, none,
  some, List, [], ◌∷◌, ◌++◌, arith, Text, codes, starts_with, text_eq, text_eq→eq, to_lower, length,
  take, leb, leb→le, leb_false→lt, length-append, length-take-le, if◌then◌else◌, inl, inr,
  Bool-cases,
}
use arcpass.Worker.Processor.{is_already_sponsored_error}
use arcpass.Worker.ContractClient.{
  ErrorObject, message_of, error, DecodedError, truncate_reason, extract_error_data,
  format_decoded_error, two_args, one_arg, describe_decoded, describe_data, mentions_connection,
  mentions_rate_limit, mentions_nonce, mentions_gas, mentions_timeout, handle_execution_error,
}

pub length-truncate_reason : (reason : Text) → length (truncate_reason reason) ≤ 1000
unfolding truncate_reason
length-truncate_reason reason = elim (Bool-cases (leb (length reason) 1000)) [
  | inl short ↦ rw short (leb→le _ _ short)
  | inr long ↦
      rw long
        (omega (arith, length-append (take 997 reason) (codes "..."), length-take-le 997 reason))
]

take-take_append : (n : ℕ) (s t : Text) → n ≤ length s → take n (take n s ++ t) ≡ take n s
take-take_append zero s t h = refl
take-take_append (suc n) [] t h = absurd (omega arith)
take-take_append (suc n) (c ∷ s) t h = ap (λ l. c ∷ l) (take-take_append n s t (omega arith))

-- A reason that is given through `truncateReason` has at most 1000 code units, the length of its
-- column, and begins with the same 997 code units, or all of them if there are fewer, as it did before.
pub truncate_reason-keeps :
    (reason : Text)
    → (length (truncate_reason reason) ≤ 1000)
      × (take 997 (truncate_reason reason) ≡ take 997 reason)
unfolding truncate_reason
truncate_reason-keeps reason = (
  length-truncate_reason reason,
  elim (Bool-cases (leb (length reason) 1000)) [
    | inl short ↦ rw short refl
    | inr long ↦ rw long (
        take-take_append 997 reason (codes "...")
          (omega (arith, leb_false→lt (length reason) 1000 long)))
  ],
)

starts_with-take :
    (n : ℕ) (s t p : Text)
    → length p ≤ n
    → n ≤ length s
    → starts_with (take n s ++ t) p ≡ starts_with s p
unfolding starts_with
starts_with-take n s t [] h k = refl
starts_with-take zero s t (c ∷ p) h k = absurd (omega arith)
starts_with-take (suc n) [] t (c ∷ p) h k = absurd (omega arith)
starts_with-take (suc n) (d ∷ s) t (c ∷ p) h k =
    rw (starts_with-take n s t p (omega arith) (omega arith))

-- Truncation keeps every beginning of up to 997 characters.
pub starts_with-truncate_reason :
    (reason p : Text)
    → length p ≤ 997
    → starts_with (truncate_reason reason) p ≡ starts_with reason p
unfolding truncate_reason
starts_with-truncate_reason reason p h = elim (Bool-cases (leb (length reason) 1000)) [
  | inl short ↦ rw short
  | inr long ↦ rw long (
      starts_with-take 997 reason (codes "...") p h
        (omega (arith, leb_false→lt (length reason) 1000 long)))
]

abbrev pub already_prefix : Text
already_prefix = codes "AlreadySponsored"

two_args-starts_with :
    (args : Option (List Text)) (print : Text → Text → Text) (default p : Text) (b : Bool)
    → ((x y : Text) → starts_with (print x y) p ≡ b)
    → starts_with default p ≡ b
    → starts_with (two_args args print default) p ≡ b
two_args-starts_with (some (x ∷ y ∷ rest)) print default p b h k = h x y
two_args-starts_with (some (x ∷ [])) print default p b h k = k
two_args-starts_with (some []) print default p b h k = k
two_args-starts_with none print default p b h k = k

one_arg-starts_with :
    (args : Option (List Text)) (print : Text → Text) (default p : Text) (b : Bool)
    → ((x : Text) → starts_with (print x) p ≡ b)
    → starts_with default p ≡ b
    → starts_with (one_arg args print default) p ≡ b
one_arg-starts_with (some (x ∷ rest)) print default p b h k = h x
one_arg-starts_with (some []) print default p b h k = k
one_arg-starts_with none print default p b h k = k

-- The last three cases of the description.
other_names :
    (recipient amount : Bool) (name : Text)
    → starts_with
        (if recipient
          then codes "InvalidRecipient: recipient address is invalid"
          else if amount
          then codes "InvalidAmount: sponsorship amount is invalid"
          else codes "Contract error: " ++ name)
        already_prefix
      ≡ false
unfolding starts_with
other_names true amount name = refl
other_names false true name = refl
other_names false false name = refl

-- A text is not two different texts.
text_eq_apart : (s t u : Text) → text_eq s t ≡ true → text_eq t u ≡ false → text_eq s u ≡ false
text_eq_apart s t u e n = rw (text_eq→eq s t e) n

-- The description of a decoded error begins with `AlreadySponsored` for that error alone.
format-already :
    (d : DecodedError)
    → starts_with (format_decoded_error d) already_prefix ≡ text_eq d.error_name already_prefix
unfolding format_decoded_error starts_with text_eq
format-already d = elim (Bool-cases (text_eq d.error_name (codes "Unauthorized"))) [
  | inl e ↦ rw e (sym (text_eq_apart d.error_name (codes "Unauthorized") already_prefix e refl))
  | inr n1 ↦ rw n1 (elim (Bool-cases (text_eq d.error_name (codes "ExceedsLimit"))) [
    | inl e ↦ rw e (
        two_args-starts_with d.args _ _ already_prefix false (λ x y. refl) refl
        ∙ sym (text_eq_apart d.error_name (codes "ExceedsLimit") already_prefix e refl))
    | inr n2 ↦ rw n2 (elim (Bool-cases (text_eq d.error_name (codes "InsufficientBalance"))) [
      | inl e ↦ rw e (
          two_args-starts_with d.args _ _ already_prefix false (λ x y. refl) refl
          ∙ sym (text_eq_apart d.error_name (codes "InsufficientBalance") already_prefix e refl))
      | inr n3 ↦ rw n3 (elim (Bool-cases (text_eq d.error_name already_prefix)) [
        | inl e ↦ rw e (one_arg-starts_with d.args _ _ already_prefix true (λ x. refl) refl)
        | inr n4 ↦ rw n4 (
            other_names (text_eq d.error_name (codes "InvalidRecipient"))
              (text_eq d.error_name (codes "InvalidAmount")) d.error_name)
      ])
    ])
  ])
]

-- A word by which `handleExecutionError` takes the error for one of the network.
abbrev pub mentions_network : Text → Bool
mentions_network msg =
    mentions_connection msg
    || mentions_rate_limit msg
    || mentions_nonce msg
    || mentions_gas msg
    || mentions_timeout msg

-- What the error says of itself, where its message has none of the words.
abbrev pub reveals_decoded : Option DecodedError → Bool
reveals_decoded none = false
reveals_decoded (some d) = text_eq d.error_name already_prefix

abbrev pub reveals_already : (Text → Option DecodedError) → Text → Option Text → Bool
reveals_already decode message none = starts_with message already_prefix
reveals_already decode message (some d) = reveals_decoded (decode d)

describe-already :
    (decode : Text → Option DecodedError) (message : Text) (error_data : Option Text)
    → starts_with (describe_data decode message error_data) already_prefix
      ≡ reveals_already decode message error_data
unfolding starts_with
describe-already decode message none = refl
describe-already decode message (some d) = by_decoded (decode d)
  where
    by_decoded :
        (o : Option DecodedError)
        → starts_with (describe_decoded o) already_prefix ≡ reveals_decoded o
    by_decoded none = refl
    by_decoded (some x) = format-already x

network_words :
    (connection limit nonce gas timeout : Bool) (message description : Text)
    → starts_with
        (if connection
          then codes "Connection error: " ++ message
          else if limit
          then codes "RPC rate limited: " ++ message
          else if nonce
          then codes "Nonce error: " ++ message
          else if gas
          then codes "Gas estimation failed: " ++ message
          else if timeout
          then codes "Transaction confirmation timeout"
          else description)
        already_prefix
      ≡ (not (connection || limit || nonce || gas || timeout)
          && starts_with description already_prefix)
unfolding starts_with
network_words true limit nonce gas timeout message description = refl
network_words false true nonce gas timeout message description = refl
network_words false false true gas timeout message description = refl
network_words false false false true timeout message description = refl
network_words false false false false true message description = refl
network_words false false false false false message description = refl

-- The failure reason that is given for a thrown `Error` is taken by the processor for a wallet
-- that has been sponsored already exactly if the message has none of the words that point to the
-- network, and the error's data decodes to `AlreadySponsored`, or there is no data and the message
-- begins with that word. So an `AlreadySponsored` revert whose message has `429`, `gas`, `nonce`,
-- `connect` or `timeout` anywhere in it is not recognised.
pub handle-is_already_sponsored :
    (decode : Text → Option DecodedError) (e : ErrorObject)
    → is_already_sponsored_error (some (truncate_reason (handle_execution_error decode (error e))))
      ≡ (not (mentions_network (to_lower (message_of e)))
          && reveals_already decode (message_of e) (extract_error_data e))
unfolding handle_execution_error is_already_sponsored_error
handle-is_already_sponsored decode e =
    let msg = to_lower (message_of e) in
    starts_with-truncate_reason (handle_execution_error decode (error e)) already_prefix
      (omega arith)
    ∙ network_words (mentions_connection msg) (mentions_rate_limit msg) (mentions_nonce msg)
        (mentions_gas msg) (mentions_timeout msg) (message_of e)
        (describe_data decode (message_of e) (extract_error_data e))
    ∙ ap (λ b. not (mentions_network msg) && b)
        (describe-already decode (message_of e) (extract_error_data e))
