-- ===== src/Lib.antt =====
-- OpenDDIL demo: the logic of the web front end (frontend/src), which shows a fleet of assets, the
-- links between the tiers of a deployment, a simulated exercise, and the figures of moves and munitions.
--
-- Parts, and where they are modelled:
-- - AssetTier, FleetTiers: frontend/src/lib/assetTier.ts (classifyAssetTier, applyRecoveryHysteresis)
--   and frontend/src/hooks/useFleetTiers.ts. Deserved says of each tier which asset it is for. The tracker is a JavaScript map from asset ids to entries;
--   use_fleet_tiers is one cycle of the hook, which classifies each asset, records its sample and passes
--   the result through the gate.
-- - LinkControl: frontend/src/lib/linkControl.ts. The controller's state is what the screen shows and
--   the targets in flight; refresh, setLink, setToxics are cut at their awaits into handlers
--   (refresh_done, set_called, set_answered, toxics_answered), and run executes any sequence of them. Apart has
--   the events that do not concern a link.
-- - LinkStatus: frontend/src/lib/linkStatus.ts and, in Indicator, frontend/src/lib/linkIndicator.ts:
--   what the screen says of the links that it observes, which never depends on LinkControl.
-- - Exercise: frontend/src/lib/exerciseControl.ts. A poll is one piece (poll_done), an op is two: its
--   status (op_head), which may leave it waiting for a body of the matching type, and that body (op_body).
--   Types has the bodies, Preflight the check before a reset.
-- - Move: frontend/src/lib/movePanel.ts. Episode cuts a move out of posture transitions, Ledger replays
--   fires and resupplies, Figures has fuel, standards and readiness. A figure is known, with its source,
--   or absent, with the reason.
-- - Munitions: frontend/src/lib/munitionsLedger.ts, which calls the replay of Move for every launcher
--   (Launchers, Build) and adds the rows up by type and region.
-- - Arrivals: frontend/src/lib/arrivals.ts: the listing of undeclared assets and the call that declares one.
-- - AlertFeed: frontend/src/lib/alertFeed.ts. A group of collapseRepeats shares a row with the list; the
--   model holds the row's place in the list instead.
-- - ManualQa and CmReport: frontend/src/lib/manualQa.ts and frontend/src/lib/cmReport.ts: questions to the
--   manual with the gate on their answers, and fault reports; the first takes its scope from the codes of
--   the second.
-- - SiteTable: frontend/src/siteTable.ts: the table of positions, one bad row of which rejects all
--   (parse_site_table), and what of it a tier's map draws (Selection).
-- - Deployment: frontend/src/deployment.ts. Tier, Lists, Moves, Panes and Terrain have the parsers;
--   Deployment has the record, the merge of the two files, and load_deployment, whose three parts
--   (apply_sources, apply_site_table, apply_branding_file) are the three try blocks of loadDeployment. A
--   title or a logo that has no trim throws, and the first part then changes nothing. Says has what an entry
--   of the declared lists has to say.
-- - Topology: frontend/src/lib/theaterTopology.ts: which tiers the theater draws, where (Nodes), and the
--   state of each line (walk, edge_of), from the readings of LinkStatus. Cut describes what walk looks for.
-- - Session: frontend/src/lib/sessionExpiry.ts, shapeErrors.ts and lastFailedRequest.ts: the registries that
--   the shape client writes to, as one state; Cached has the snapshot that useSyncExternalStore compares.
-- - Clusters: frontend/src/lib/clusterKinds.ts: the union-find of groupsOf, whose array is a function, and,
--   in Kinds, the kinds that a cluster shows. Labels and Grouping have the forest behind the array.
-- - Aggregates: frontend/src/lib/fleetAggregates.ts: lists and counts over the fleet.
-- - Posture and Regions: frontend/src/lib/posture.ts; frontend/src/lib/regionScope.ts and tierShape.ts.
-- - Base, Json: what the parts share: lists, JavaScript's maps (Dict), groups by a key, sort,
--   texts, signed numbers, and the values that res.json() gives, with the ways in which a fetch can end.
--
-- Bounds and choices. Times are natural numbers of milliseconds since the epoch and are never before
-- it; a time that Date.parse cannot read is none. Date.parse and toISOString are parameters, as are the
-- deployment's values. Quantities are natural numbers and never overflow; a difference of two is a signed
-- number (Base/Int). Durations are kept in milliseconds, where the source divides by 1000. A threshold
-- or a heartbeat is a decimal number of seconds: since times are whole milliseconds, what exceeds it exceeds
-- the whole part of its milliseconds. A number off the
-- wire is the decimal that its text spells. A body that the source casts to an interface is trusted where it
-- casts and checked where it checks. A text's length and order are those of its UTF-16 code units. Three
-- loops run on fuel: the search of a union-find, on the number of merges; the walk to the tier that cuts
-- another off, on one more than the tiers drawn; and the placing of a tier, on one more than the tiers,
-- since each deeper call is for a tier that is not yet being visited. So do the digits of a number in a
-- text (Base/Text), where a number's own value is enough. A rejected row of the site table is a value where
-- the source writes a sentence, and lines on the console are left out.
--
-- Not modelled: React components and the hooks over synced tables, drawing, terrain, distances and the
-- spanning tree of a cluster (floating point), the tables of colours and words, and the services that the
-- front end calls (gateway, exercise, egress, simulator), whose answers are inputs here.
mod Base
pub mod Json
pub mod AssetTier
pub mod LinkControl
pub mod Move
pub mod Exercise
pub mod FleetTiers
pub mod ManualQa
pub mod CmReport
pub mod LinkStatus
pub mod Munitions
pub mod AlertFeed
pub mod Arrivals
pub mod Aggregates
pub mod Clusters
pub mod Deployment
pub mod Posture
pub mod Regions
pub mod Session
pub mod SiteTable
pub mod Topology
