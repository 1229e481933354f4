-- ===== src/Idempotency/Key.antt =====
-- internal/idempotency/domain/key.go
use banking_plateform.Base.{ℕ, ◌||◌, ◌++◌, Str, text, is_empty, ltb, length, take}
use banking_plateform.Shared.Errors.{Result, ok, domain, validation, ◌>>◌, fail_if}
use banking_plateform.Shared.GoText.{trim_space}

abbrev pub min_key_length : ℕ
min_key_length = 8

abbrev pub max_key_length : ℕ
max_key_length = 128

-- `ParseKey`: the length is counted in runes.
unfoldable pub parse_key : Str → Result Str
parse_key raw =
    let key = trim_space raw in
    do
      fail_if (is_empty key) (domain validation)
      fail_if (ltb (length key) min_key_length || ltb max_key_length (length key))
          (domain validation)
      ok key

-- `sha256.Sum256` followed by `hex.EncodeToString` of the first bytes of the sum, which is not
-- computed here: the hexadecimal digest is an argument.
module _ (digest : Str → Str) where
  -- `LedgerTransactionID`
  unfoldable pub ledger_transaction_id : Str → Str → Str
  ledger_transaction_id scope key = text "tx_idem_" ++ take 32 (digest (scope ++ (text ":" ++ key)))

  -- `sagaIDFromKey` of internal/transfer/app/service.go
  unfoldable pub saga_id_from_key : Str → Str
  saga_id_from_key key = text "saga_" ++ take 24 (digest (text "saga:" ++ key))
