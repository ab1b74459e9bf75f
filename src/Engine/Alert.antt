-- ===== src/Engine/Alert.antt =====
-- internal/ingestion/normalizer.go: the alert that every adapter produces. A `time.Time` is a number
-- of nanoseconds on one clock, and a missing `*time.Time` is `none`.
use alertmesh_new.Prelude.{ℕ, String, Option, Assoc}

pub record RawAlert : Type 0 where
  pub source : String
  pub fingerprint : String
  pub labels : Assoc String
  pub annotations : Assoc String
  pub starts_at : ℕ
  pub ends_at : Option ℕ
  pub status : String
  pub raw_payload : String
  pub data_source_id : String
