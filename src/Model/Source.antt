-- ===== src/Model/Source.antt =====
-- The detection source tokens of internal/domain/model/persona.go.
use lfx_v2_persona_service.Prelude.{String}

abbrev pub board_member : String
board_member = "board_member"

abbrev pub executive_director : String
executive_director = "executive_director"

abbrev pub cdp_roles : String
cdp_roles = "cdp_roles"

abbrev pub writer : String
writer = "writer"

abbrev pub auditor : String
auditor = "auditor"

abbrev pub committee_member : String
committee_member = "committee_member"

abbrev pub mailing_list : String
mailing_list = "mailing_list"

abbrev pub meeting_attendance : String
meeting_attendance = "meeting_attendance"
