-- ===== src/Lib.antt =====
-- A verification library for canvas-server: who may reach a workspace or a context and how far, and
-- the parts of the server that hold such decisions in a state of their own.
--
-- The parts and how they interact:
-- * Access models src/core/workspace/lib: access.js (Access.Permissions, Access.Groups,
--   Access.Resolve), WorkspaceMembers.js (Access.Members) and WorkspaceTokens.js (Access.Tokens). The
--   state is the `acl` of a workspace.json, the record Acl; `grant`, `revoke`, `create`,
--   `delete_token` take the stored one and return the one that is set.
-- * Gate models src/transports/middleware: workspace-acl.js (Gate.Request, Gate.Lookup,
--   Gate.Workspace, Gate.Scope, Gate.Uuid) and agent-acl.js (Gate.Clamp, Gate.Agent). The workspace
--   manager and the auth service behind them are the record Server, whose fields are the calls
--   that the middleware makes of them; tokens in it are those of Access.Tokens. A verdict is what
--   the handler attaches to the request or the error that it replies with.
-- * Context models src/core/context/lib: Url.js (Context.Url), sharing and permission checks of
--   Context.js (Context.Sharing), and moving a context about (Context.Navigation), which parses its
--   URLs with Context.Url; the trees and workspaces behind it are the record Host.
-- * Workspaces models the manager of src/core/workspace/index.js: references (Workspaces.References),
--   the users' indexes and the lookup tables over them (Workspaces.Indexes, whose state is the
--   record Manager), names (Workspaces.Names), who gets an instance (Workspaces.Guarded, with the
--   resolution of Access.Resolve), members (Workspaces.Sharing, with Access.Members), share tokens
--   (Workspaces.ShareTokens, with Access.Tokens), creation, removal and transfer
--   (Workspaces.Registry), registration from the disk (Workspaces.Imports) and remote entries
--   (Workspaces.Remotes). The users service, the disk and the constructors of instances are the
--   record World and arguments.
-- * Edge models src/edge/registry.js (Edge.Registry): the registry's two maps, the frames of
--   the tunnel, and a log of how each request was settled.
-- * Hooks models src/core/workspace/services/hook: the matching of rules.js (Hooks.Rules), with the
--   document's classification as the record Classification, and pending-actions.js
--   (Hooks.Pending), with the two files of the store of proposals as lists of records whose
--   lines begin with the JSON of their ids, and
--   key-utils.js and naming.js (Hooks.Keys). The dispatch of index.js there (Hooks.Dispatch) ties
--   an event to the rules that it sets off, with the moments of the last events as its state.
-- * Devices models src/core/device/Registry.js: one user's file of devices, as an optional dictionary.
-- * Http models src/transports/lib: http-range.js (Http.Range) and basic-auth-throttle.js
--   (Http.Throttle, with the buckets as a state).
-- * Prelude has what they share: texts as lists of UTF-16 units with the string methods of the
--   sources, maps in insertion order, and `toLowerCase` as the parameter Casing, whose laws
--   ASCII lower-casing satisfies.
--
-- Functions keep the names of the sources in snake case. Numbers are the naturals, since all of them
-- are counts, positions or times; a function that throws returns an error or none; time,
-- randomness and generated ids are arguments. Loops over lists are recursions on the list. The loops
-- that look for a free suffix of a workspace's name run on fuel, one round more than the name index
-- has entries; more rounds are never needed, since each round that fails has met another entry.
--
-- Not modelled: the SynapsD database, Fastify, sockets and files, which are only called; logging and
-- events; the manager's listings, public canvas shares, services and scan of directories; the
-- files of hooks in a workspace, the actions that rules execute and their review.
pub mod Prelude
pub mod Access
pub mod Context
pub mod Devices
pub mod Edge
pub mod Gate
pub mod Hooks
pub mod Http
pub mod Workspaces
