-- ===== src/Dump/Reports/Documents.antt =====
-- aws/dump/resources/utils.go: the policy documents in the metadata. url.QueryUnescape and
-- encoding/json are parameters.
use awstools.Prelude.{List, [], ◌∷◌, Result, ok, ◌>>=◌}
use awstools.Prelude.Text.{Text, codes}
use awstools.Common.Config.Values.{Fields, Items, object, nil, cons, put}
use awstools.Common.Config.Refresh.{wrap}

pub record DocumentWorld : Type 0 where
  pub query_unescape : Text → Result Text Text
  pub unmarshal_map : Text → Result Text Fields

module _ (w : DocumentWorld) where
  -- DecodeInlinePolicyDocument
  unfoldable pub decode_inline_policy_document : Text → Result Text Fields
  decode_inline_policy_document inline_document = do
    decoded ←
        wrap (codes "failed to decode inline policy document") (w.query_unescape inline_document)
    wrap (codes "failed to parse inline policy document to JSON") (w.unmarshal_map decoded)

  -- m[key] = document, for the document that the entry holds as a text
  unfoldable pub decode_at : Text → Text → Fields → Result Text Fields
  unfolding decode_inline_policy_document
  decode_at key inline_document m = do
    document ← decode_inline_policy_document inline_document
    ok (put key (object document) m)

  -- The loop over a list of maps, each with the text of its document.
  unfoldable pub decode_each : Text → List (Text × Fields) → Result Text Items
  unfolding decode_at
  decode_each key [] = ok nil
  decode_each key ((inline_document, m) ∷ maps) = do
    m' ← decode_at key inline_document m
    rest ← decode_each key maps
    ok (cons (object m') rest)
