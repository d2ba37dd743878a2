-- ===== src/Lib.antt =====
-- A model of the core of the Oragono IRC server, with theorems on it.
--
-- The server keeps channels (irc/channel.go), whose members are clients (irc/client.go) with a set
-- of mode letters each (irc/modes/modes.go); a channel has lists of masks (irc/usermaskset.go)
-- that ban, exempt or invite clients. The channel manager (irc/channelmanager.go) says which
-- channels there are, and the client manager (irc/client_lookup_set.go) who has which nickname.
-- Beside these stand the manager of watched names (irc/monitor.go), the limits of connections
-- (irc/connection_limits), with the throttles of connections and of logins, and the delays of a
-- client's commands (irc/fakelag.go).
--
-- Files and what they model:
-- - Prelude: tests, lists and integers over the native numbers, Go's maps as association lists
--   (Prelude/GoMap), and laws of `&` and `|` (Prelude/Bits).
-- - Modes/Letters, Modes/ModeSet: the letters, and ModeSet as its two words of 32 bits over
--   irc/utils/bitset.go. Modes/Parse: ParseChannelModeChanges, ParseUserModeChanges and
--   ModeChanges.Strings. Modes/Privileges: umodeGreaterThan and channelUserModeHasPrivsOver.
-- - Masks: UserMaskSet, and the making of its expressions by irc/utils/glob.go.
-- - Channel/State: the part of Channel and Client that is read or written. Channel/Access: who may
--   act on whom. Channel/Membership: Join, Part, Quit and Kick, with Client.CheckInvited,
--   addChannel and removeChannel. Channel/Invites: Invite and Uninvite. Channel/Speaking:
--   CanSpeak, SendSplitMessage, SetTopic and auditoriumFriends. Channel/Registration:
--   SetRegistered, SetUnregistered, Transfer, AcceptTransfer and ProcessAccountToUmodeChange.
-- - ClientManager/State: the tables, Get, Remove, AddSession and Client.SetNick.
--   ClientManager/SetNick: ClientManager.SetNick, as the choice of a name and the claim to it.
-- - Channel/ModeChanges: ApplyChannelModeChanges (irc/modes.go) and applyModeToMember.
--   Channel/Storage: what is stored of a registered channel, and its loading.
--   ChannelManager/State, ChannelManager/Operations: the table of channels (irc/channelmanager.go)
--   with Join, Part and cleanup. ChannelManager/Leaving: Channel.Quit with the cleanup that it
--   asks for. ChannelManager/Registry: SetRegistered, SetUnregistered, Rename and the purges.
--   ChannelManager/Operations/Interleaving: the steps that the operations of several clients make
--   on the table.
-- - ChannelRegistry: how registered channels and purges are kept in the database
--   (irc/channelreg.go). UserModes: ApplyUserModeChanges (irc/modes.go) with the counters of
--   irc/stats.go and the lists of irc/snomanager.go. Bans/Dline, Bans/Kline: the bans of networks
--   and of masks, with their timers and their storage, in which a temporary ban has a time to
--   live, and writes that may fail (irc/dline.go, irc/kline.go). Resume: the tokens of
--   irc/resume.go. TokenLines: TokenLineBuilder and ArgsToStrings (irc/utils/text.go,
--   irc/utils/args.go).
-- - Limits/Throttle, Limits/Fakelag: GenericThrottle and Fakelag. Limits/Flatip,
--   Limits/Connections: the addresses of irc/flatip, and Limiter and TorLimiter of
--   irc/connection_limits. Monitor: MonitorManager. WhoWas: WhoWasList (irc/whowas.go), whose
--   index -1 is `none`.
-- - Ring: walks through a ring buffer, shared by WhoWas and History. History/Buffer,
--   History/Growth: Buffer of irc/history/history.go with Add and Resize, and the growth to a
--   power of two (irc/utils/math.go). History/Growth/Log: the buffer as the end of a log.
--   History/Queries: betweenHelper, Delete, MinMaxAsc and GenericAround (irc/history/queries.go).
-- - Examples: a small server on which the theorems are run.
--
-- How the code is read. A client, a session and a channel are known by numbers that stand for
-- their addresses. A method becomes a function from the state before to the state after and what
-- it answers: an error, the clients who are told (the sessions, for SendSplitMessage), and whether
-- something goes into the history; the text of a reply is left out. A nil map reads as the empty
-- one, a missing key as the zero value. Each operation is one step: what the code does under
-- several locks one after the other is done at once, except for the joins of ChannelManager, whose
-- parts may be interleaved with other operations. The empty text stands for the account of a
-- client who is not logged in. Times and durations are numbers of nanoseconds. The words of a mode
-- set keep their 32 bits. Loops over lists end with them. A loop over a ring buffer has fuel: one
-- step for each place of the buffer, or one more, which is enough since it stops at the latest
-- when it has come around; the theorems on it say that it ends with `some`. There, `none` also
-- stands for an index outside a slice.
--
-- What is a parameter: the regexp package (Masks.RegexpPackage), the canonical form of a mask, and
-- casefolding, skeletons, the patterns of the configuration and the reservation of nicknames
-- (ClientManager.State.Names); for the channel manager, what the database has of a channel
-- (ChannelManager.State.World); for the bans, whether the database still returns an entry
-- (Bans.Info.Returns) and whether a write to it succeeds; for the registry, the conversions of
-- values to text and back (ChannelRegistry.Codecs); for mode changes, the client that has a
-- nickname and strconv.Atoi (Channel.ModeChanges.Texts).
--
-- Not modelled: the input and output of clients, the layout and the other keys of the database,
-- accounts and services, the configuration, the sending of history, and the handlers of commands.
-- They are replies and storage for the most part.
pub mod Prelude
pub mod Modes
pub mod Masks
pub mod Ring
pub mod History
pub mod Channel
pub mod ClientManager
pub mod ChannelManager
pub mod ChannelRegistry
pub mod UserModes
pub mod Bans
pub mod Resume
pub mod TokenLines
pub mod Limits
pub mod Monitor
pub mod WhoWas
pub mod Examples
