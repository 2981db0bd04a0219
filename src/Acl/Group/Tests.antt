-- ===== src/Acl/Group/Tests.antt =====
-- Groups at concrete inputs.
use ebftpd.Acl.Group.{GroupObject, new_group_data}

abbrev group : GroupObject
group = record { memory = new_group_data; stored = new_group_data }
