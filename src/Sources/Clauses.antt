-- ===== src/Sources/Clauses.antt =====
-- The filter clauses that the username legs send to the Query Service, and the tags of the email legs.
use mathlib.Core.Path.{subst}
use lfx_v2_persona_service.Prelude.{
  String, ◌<>◌, Bool, true, false, List, [], ◌∷◌, All, some, lookup, ◌≡◌, ◌↔◌, refl, arith,
  Bool-cases, inl, inr,
}
use lfx_v2_persona_service.Text.{join}
use lfx_v2_persona_service.Username.{is_valid_query_username}
use lfx_v2_persona_service.Username.Filters.{
  has, cut, cut-join, cut-pieces, has-append, valid_username-has,
}
use lfx_v2_persona_service.Model.{PersonaRequest}
use lfx_v2_persona_service.Query.Client.{SearchParams, search_query}
use lfx_v2_persona_service.Sources.Committee
use lfx_v2_persona_service.Sources.Director.{director_params}
use lfx_v2_persona_service.Sources.Access.{writer_params, auditor_params}
use lfx_v2_persona_service.Sources.MailingList
use lfx_v2_persona_service.Sources.Meetings.{tag_params}

-- The search sends its filters so that cutting them at the commas gives them back.
abbrev pub SendsFilters : SearchParams → Type 0
SendsFilters p =
    (sent : String) × (lookup "filters" (search_query p) ≡ some sent)
    × (cut b',' "" sent ≡ p.filters)

sends_one :
    (kind field u : String) (tags : List String)
    → has b',' field ≡ false
    → has b',' u ≡ false
    → SendsFilters (record { kind = kind; tags_all = tags; filters = (field <> u) ∷ [] })
unfolding search_query join
sends_one kind field u [] f h =
    (field <> u, ground arith, cut-join (field <> u) [] (rw has-append (ground arith), tt))
sends_one kind field u (t ∷ ts) f h =
    (field <> u, ground arith, cut-join (field <> u) [] (rw has-append (ground arith), tt))

-- Likewise its tags.
abbrev pub SendsTags : SearchParams → Type 0
SendsTags p =
    (sent : String) × (lookup "tags_all" (search_query p) ≡ some sent)
    × (cut b',' "" sent ≡ p.tags_all)

abbrev NoComma : String → Type 0
NoComma t = has b',' t ≡ false

module _ (kind t : String) (ts fs : List String) where
  -- Tags without a comma are sent so that they come back, and only they are.
  sends_tags :
      All NoComma (t ∷ ts) → SendsTags (record { kind = kind; tags_all = t ∷ ts; filters = fs })
  unfolding search_query
  sends_tags h = (join "," (t ∷ ts), ground arith, cut-join t ts h)

  sent_tags :
      SendsTags (record { kind = kind; tags_all = t ∷ ts; filters = fs }) → All NoComma (t ∷ ts)
  unfolding search_query has
  sent_tags (sent, looked_up, back) = subst (All NoComma) back (cut-pieces b',' "" sent refl)

free_tag :
    (prefix u : String) → has b',' prefix ≡ false → has b',' u ≡ false → NoComma (prefix <> u)
free_tag prefix u p h = rw has-append (ground (arith, p, h))

-- A username that passes the validation adds nothing to any search that embeds it: each of the five
-- searches that filter by it is received with the filters that it lists, and the search for meetings,
-- which has it in a tag, with the tag that it lists.
pub username_clauses :
    (req : PersonaRequest) (board_only : Bool)
    → is_valid_query_username req.username ≡ true
    → SendsFilters (Committee.username_params req board_only)
      × SendsFilters (MailingList.username_params req)
      × SendsFilters (director_params req)
      × SendsFilters (writer_params req)
      × SendsFilters (auditor_params req)
      × SendsTags (tag_params ("username:" <> req.username))
unfolding Committee.username_params MailingList.username_params director_params writer_params
    auditor_params tag_params has
username_clauses req board_only valid =
    let free = (valid_username-has req.username valid).0 in
    (
      sends_one "committee_member" "username:" req.username _ refl free,
      sends_one "groupsio_member" "username:" req.username [] refl free,
      sends_one "project_settings" "executive_director.username:" req.username [] refl free,
      sends_one "project_settings" "writers.username:" req.username [] refl free,
      sends_one "project_settings" "auditors.username:" req.username [] refl free,
      sends_tags "v1_past_meeting_participant" _ [] []
          (free_tag "username:" req.username refl free, tt),
    )

-- The tag of an email without a comma.
email_tag : (u : String) → NoComma ("email:" <> u) → has b',' u ≡ false
unfolding has
email_tag u h = elim (Bool-cases (has b',' u)) [
  | inl e ↦ let comma : has b',' ("email:" <> u) ≡ true = rw (has-append, e) refl in cc
  | inr e ↦ e
]

board_tags_free : (b : Bool) → All NoComma (Committee.board_tag b)
unfolding has
board_tags_free true = (refl, tt)
board_tags_free false = tt

-- An email is not validated: the committee searches, with or without the tag of the Board, the search
-- of the mailing lists and that of the meetings are received with the tags that they list exactly when
-- the email has no comma.
pub email_tags_split :
    (req : PersonaRequest) (board_only : Bool)
    → (SendsTags (Committee.email_params req board_only) ↔ (has b',' req.email ≡ false))
      × (SendsTags (MailingList.email_params req) ↔ (has b',' req.email ≡ false))
      × (SendsTags (tag_params ("email:" <> req.email)) ↔ (has b',' req.email ≡ false))
unfolding Committee.email_params MailingList.email_params tag_params has
email_tags_split req board_only = (
  tagged "committee_member" (Committee.board_tag board_only) (board_tags_free board_only),
  tagged "groupsio_member" [] tt,
  tagged "v1_past_meeting_participant" [] tt,
)
  where
    tagged :
        (kind : String) (ts : List String)
        → All NoComma ts
        → SendsTags (record { kind = kind; tags_all = ("email:" <> req.email) ∷ ts; filters = [] })
          ↔ (has b',' req.email ≡ false)
    tagged kind ts free = (
      λ h. email_tag req.email (sent_tags kind _ ts [] h).0,
      λ h. sends_tags kind _ ts [] (free_tag "email:" req.email refl h, free),
    )
