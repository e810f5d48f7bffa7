-- ===== src/Common/Arn/Exact.antt =====
-- The string that ReplaceAccountID returns, for the two forms of ARN that the SDK documents.
use awstools.Prelude.{◌≡◌, ◌≢◌, refl, [], ◌∷◌, ◌++◌, append_assoc, ok, All, List}
use awstools.Prelude.Text.{Text, codes, split, split-Free_word, join, join-split, Free}
use awstools.Common.Arn.Replacing.{slash_resource-SameHead}
use awstools.Common.Arn.{
  head_fields, slash_resource, resource_string, arn_string, with_resource, replace_account_id,
}

-- No segment between two slashes, before the first or after the last, is empty.
abbrev pub HasNoGap : Text → Type 0
HasNoGap resource = All (λ w. w ≢ []) (split b'/' resource)

resource_string-slash_resource :
    (p s r i : Text) (segments : List Text)
    → All (λ w. w ≢ []) segments
    → resource_string (slash_resource (head_fields p s r i) segments) ≡ join (codes "/") segments
unfolding resource_string slash_resource join
resource_string-slash_resource p s r i [] h = refl
resource_string-slash_resource p s r i ([] ∷ rest) h = absurd (h.0 refl)
resource_string-slash_resource p s r i ((c ∷ t) ∷ []) h = refl
resource_string-slash_resource p s r i ((c ∷ t) ∷ [] ∷ rest) h = absurd (h.1.0 refl)
resource_string-slash_resource p s r i ((c ∷ t) ∷ (d ∷ u) ∷ []) h = refl
resource_string-slash_resource p s r i ((c ∷ t) ∷ (d ∷ u) ∷ [] ∷ rest) h = absurd (h.1.1.0 refl)
resource_string-slash_resource p s r i ((c ∷ t) ∷ (d ∷ u) ∷ (e ∷ v) ∷ []) h = rw append_assoc
resource_string-slash_resource p s r i ((c ∷ t) ∷ (d ∷ u) ∷ (e ∷ v) ∷ w ∷ rest) h = rw append_assoc

arn_string-slash_resource :
    (account_id p s r i : Text) (segments : List Text)
    → All (λ w. w ≢ []) segments
    → arn_string
        (record (slash_resource (head_fields p s r i) segments) { account_id = account_id })
      ≡ join (codes ":") (codes "arn" ∷ p ∷ s ∷ r ∷ account_id ∷ join (codes "/") segments ∷ [])
unfolding arn_string
arn_string-slash_resource account_id p s r i segments gap =
    let same = slash_resource-SameHead (head_fields p s r i) segments in
    cc (
      same.partition,
      same.service,
      same.region,
      resource_string-slash_resource p s r i segments gap,
    )

-- An ARN with five colons, whose resource has no empty segment: the account is replaced, and
-- every other byte stays.
replace_account_id_slash :
    (arn account_id p s r i resource : Text)
    → split b':' arn ≡ codes "arn" ∷ p ∷ s ∷ r ∷ i ∷ resource ∷ []
    → HasNoGap resource
    → replace_account_id arn account_id
      ≡ ok (join (codes ":") (codes "arn" ∷ p ∷ s ∷ r ∷ account_id ∷ resource ∷ []))
unfolding replace_account_id with_resource
replace_account_id_slash arn account_id p s r i resource h gap = rw h (
    cc (
      arn_string-slash_resource account_id p s r i (split b'/' resource) gap,
      join-split b'/' resource,
    ))

-- An ARN `arn:p:s:r:i:type:name`: the colon between the type and the name becomes a slash.
replace_account_id_colon :
    (arn account_id p s r i kind name : Text)
    → split b':' arn ≡ codes "arn" ∷ p ∷ s ∷ r ∷ i ∷ kind ∷ name ∷ []
    → Free b'/' kind
    → kind ≢ []
    → name ≢ []
    → replace_account_id arn account_id
      ≡ ok (
          join
            (codes ":")
            (codes "arn" ∷ p ∷ s ∷ r ∷ account_id ∷ (kind ++ (codes "/" ++ name)) ∷ []))
unfolding replace_account_id with_resource
replace_account_id_colon arn account_id p s r i [] name h free k n = absurd (k refl)
replace_account_id_colon arn account_id p s r i (c ∷ t) [] h free k n = absurd (n refl)
replace_account_id_colon arn account_id p s r i (c ∷ t) (d ∷ u) h free k n =
    rw (h, split-Free_word b'/' (c ∷ t) free)
