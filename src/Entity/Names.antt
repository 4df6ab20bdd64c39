-- ===== src/Entity/Names.antt =====
-- The names of classes, types, actions and outcomes.
use libwake.Common.{ℕ, ◌==◌, if◌then◌else◌}
use Prim.Native.String.{String}

unfoldable pub eclass_name : ℕ → String
eclass_name x =
    if x == 0 then "WHO" else if x == 1 then "WHOM" else if x == 2 then "WITH" else "UNKNOWN_CLASS"

unfoldable pub etype_name : ℕ → String
etype_name x =
    if x == 0x10
    then "IPV4"
    else if x == 0x11
    then "IPV6"
    else if x == 0x20
    then "USER"
    else if x == 0x21
    then "MACHINE"
    else if x == 0x22
    then "EMAIL"
    else if x == 0x30
    then "DOMAIN"
    else if x == 0x31
    then "SERVICE"
    else if x == 0x32
    then "PATH"
    else if x == 0x33
    then "URL"
    else if x == 0x40
    then "HASH_MD5"
    else if x == 0x41
    then "HASH_SHA1"
    else if x == 0x42
    then "HASH_SHA256"
    else if x == 0x50
    then "PORT"
    else if x == 0x51
    then "PROTO"
    else if x == 0x52
    then "SIZE"
    else if x == 0x53
    then "SIG_ID"
    else "UNKNOWN_TYPE"

unfoldable pub action_name : ℕ → String
action_name x =
    if x == 0
    then "UNKNOWN"
    else if x == 1
    then "AUTH"
    else if x == 2
    then "NETWORK"
    else if x == 3
    then "FILE"
    else if x == 4
    then "EXEC"
    else if x == 5
    then "POLICY"
    else if x == 6
    then "SYSTEM"
    else if x == 7
    then "DNS"
    else if x == 8
    then "MAIL"
    else if x == 9
    then "WEB"
    else "UNKNOWN_ACTION"

unfoldable pub outcome_name : ℕ → String
outcome_name x =
    if x == 0
    then "UNKNOWN"
    else if x == 1
    then "SUCCESS"
    else if x == 2
    then "FAILURE"
    else if x == 3
    then "ERROR"
    else "UNKNOWN_OUTCOME"
