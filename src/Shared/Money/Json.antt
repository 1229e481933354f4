-- ===== src/Shared/Money/Json.antt =====
-- internal/shared/domain/money.go: the JSON form of an amount. What encoding/json makes of the two
-- fields, and reads of a text, is an argument.
use banking_plateform.Base.{◌≡◌, refl, Str, str_eq_refl}
use banking_plateform.Base.Int.{ℤ}
use banking_plateform.Shared.Errors.{Result, ok, ◌>>=◌}
use banking_plateform.Shared.Int64.{InRange}
use banking_plateform.Shared.Money.{Money, halalas_from_minor_units, currency_sar}
use banking_plateform.Shared.Money.Range.{IsRiyals}

-- `moneyJSON`
pub record MoneyJson : Type 0 where
  pub currency : Str
  pub halalas : ℤ

-- `json.Marshal` and `json.Unmarshal` at this struct.
pub record Encoding : Type 0 where
  pub marshal : MoneyJson → Result Str
  pub unmarshal : Str → Result MoneyJson

module _ (json : Encoding) where
  -- `MarshalJSON`
  unfoldable pub marshal_json : Money → Result Str
  marshal_json m = json.marshal (record { currency = m.currency; halalas = m.halalas })

  -- `UnmarshalJSON`: the amount that is read.
  unfoldable pub unmarshal_json : Str → Result Money
  unmarshal_json data_ = do
    payload ← json.unmarshal data_
    halalas_from_minor_units payload.halalas payload.currency

-- What encoding/json documents: the fields are read back as they were written.
pub record ReadsBack (json : Encoding) : Type 0 where
  pub written : (p : MoneyJson) → InRange p.halalas → (data_ : Str) × (json.marshal p ≡ ok data_)
  pub read : (p : MoneyJson) (data_ : Str) → json.marshal p ≡ ok data_ → json.unmarshal data_ ≡ ok p

module _ (json : Encoding) (law : ReadsBack json) where
  -- An amount of riyals within int64 is read back from its JSON.
  pub unmarshal_json-marshal_json :
      (m : Money) → IsRiyals m → (marshal_json json m >>= unmarshal_json json) ≡ ok m
  unfolding marshal_json unmarshal_json halalas_from_minor_units
  unmarshal_json-marshal_json m h =
      let p : MoneyJson = record { currency = m.currency; halalas = m.halalas } in
      let (data_, e) = law.written p h.range in
      rw (e, law.read p data_ e, h.currency) (rw (str_eq_refl currency_sar) refl)
