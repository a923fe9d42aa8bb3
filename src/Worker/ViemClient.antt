-- ===== src/Worker/ViemClient.antt =====
-- apps/worker/src/viem-client.ts: the check of the chain, and the account of the sponsor.
use arcpass.Prelude.{Bool, Option, none, some, Text, codes, starts_with, ◌++◌, if◌then◌else◌}

-- What the race of `getChainId` and the timer brings.
pub data Raced (N : Type 0) : Type 0 where
  answers : N → Raced N
  refuses : Text → Raced N
  timer_fires : Raced N

pub data ChainError (N : Type 0) : Type 0 where
  mismatch : N → N → ChainError N
  timed_out : ChainError N
  verification_failed : Text → ChainError N

-- `verifyChainId`: the error that it throws, if it does; `same` is `===`.
unfoldable pub verify_chain_id :
    {N : Type 0} → (same : N → N → Bool) → N → Raced N → Option (ChainError N)
verify_chain_id same expected (refuses message) = some (verification_failed message)
verify_chain_id same expected timer_fires = some timed_out
verify_chain_id same expected (answers actual) =
    if same actual expected then none else some (mismatch expected actual)

unfoldable pub normalized_key : Text → Text
normalized_key key = if starts_with key (codes "0x") then key else codes "0x" ++ key

-- `validateSponsorPrivateKey`: no account where `privateKeyToAccount` throws, and then the process
-- ends.
unfoldable pub validate_sponsor_private_key :
    {Account : Type 0} → (Text → Option Account) → Text → Option Account
validate_sponsor_private_key derive key = derive (normalized_key key)
