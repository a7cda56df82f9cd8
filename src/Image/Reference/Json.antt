-- ===== src/Image/Reference/Json.antt =====
-- MarshalJSON and UnmarshalJSON of pkg/image/reference.go. encoding/json on the struct of the three
-- fields is the parameter `Json`.
use singularity_cri.Base.{◌≡◌, ap, Option, none, List}
use singularity_cri.Base.Text.{Text}
use singularity_cri.Base.Result.{Result, ok, Error}
use singularity_cri.Image.Reference.{Reference}

-- jsonRef: null and an empty array are the same to the program.
pub record JsonRef : Type 0 where
  pub uri : Text
  pub tags : List Text
  pub digests : List Text

-- json.Marshal and json.Unmarshal into a struct of zero values, which keeps what was read before an error.
pub record Json : Type 0 where
  pub marshal : JsonRef → Result Text
  pub unmarshal : Text → JsonRef × Option Error

module _ (J : Json) where
  unfoldable pub marshal_json : Reference → Result Text
  marshal_json r = J.marshal (record { uri = r.uri; tags = r.tags; digests = r.digests })

  -- The reference behind the call, with its error: what it held before is overwritten in any case.
  unfoldable pub unmarshal_json : Reference → Text → Reference × Option Error
  unmarshal_json r text =
      let (found, e) = J.unmarshal text in
      (record r { uri = found.uri; tags = found.tags; digests = found.digests }, e)

  -- Where json.Unmarshal reads back what json.Marshal has written, a reference that MarshalJSON has encoded
  -- is the one that UnmarshalJSON gives, into whatever reference.
  pub unmarshal_json-marshal_json :
      ((j : JsonRef) (text : Text) → J.marshal j ≡ ok text → J.unmarshal text ≡ (j, none))
      → (r before : Reference) (text : Text) → marshal_json r ≡ ok text
      → unmarshal_json before text ≡ (r, none)
  unfolding marshal_json unmarshal_json
  unmarshal_json-marshal_json back r before text h =
      ap
        (λ (found : JsonRef × Option Error).
          let read : Reference × Option Error = (
            record before { uri = found.0.uri; tags = found.0.tags; digests = found.0.digests },
            found.1,
          ) in
          read)
        (back (record { uri = r.uri; tags = r.tags; digests = r.digests }) text h)
