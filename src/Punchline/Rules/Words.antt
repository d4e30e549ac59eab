-- ===== src/Punchline/Rules/Words.antt =====
-- The texts that modules/punchline/src/rules.cpp compares: states of an entry, kinds of a punch, roles.
use Prim.Native.String.{String}
use Prim.Native.Char.{code}
use archivum.Base.{[], ◌∷◌, Bytes}

-- The bytes of an ASCII text.
abbrev pub codes : String → Bytes
codes String.[] = []
codes (String.◌∷◌ c s) = code c ∷ codes s

abbrev pub recorded : Bytes
recorded = codes "recorded"

abbrev pub submitted : Bytes
submitted = codes "submitted"

abbrev pub approved : Bytes
approved = codes "approved"

abbrev pub released : Bytes
released = codes "released"

abbrev pub locked : Bytes
locked = codes "locked"

abbrev pub payroll : Bytes
payroll = codes "payroll"

abbrev pub supervisor : Bytes
supervisor = codes "supervisor"

abbrev pub admin : Bytes
admin = codes "admin"

abbrev pub out : Bytes
out = codes "out"

abbrev pub open_state : Bytes
open_state = codes "open"

abbrev pub late_punch : Bytes
late_punch = codes "late_punch"

abbrev pub past_cutoff : Bytes
past_cutoff = codes "past_cutoff"

abbrev pub device_attested_count : Bytes
device_attested_count = codes "device_attested_count"

abbrev pub resolved : Bytes
resolved = codes "resolved"

abbrev pub approval : Bytes
approval = codes "approval"

abbrev pub override_prefix : Bytes
override_prefix = codes "override: "
