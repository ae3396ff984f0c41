-- ===== src/Multicast/Six/Sessions.antt =====
-- A client and a server of mcast6.c on one group.
use sys_snippets.Common.{false, false}
use sys_snippets.Multicast.Client.{Client}
