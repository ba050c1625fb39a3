-- ===== src/Lib.antt =====
-- A model of the RouterOS inspector, a read-only MCP server and command line that collects the
-- state of MikroTik devices, redacts it and audits it. Paths are those under
-- src/routeros_inspector_mcp, and those of scripts/ at the root of the repository.
--
-- The parts. A caller names a device and an operation. The service (service.py) checks the device
-- against the inventory (config.py) and the operation against the registry (registry.py), takes the
-- backend of the device's transport (backends/base.py, backends/fixture.py,
-- backends/routeros_api.py), and passes what it returns through the redaction (redaction.py); an
-- exception leaves as one of a few labels. The live backend takes a name and a password from the
-- operator's vault (credentials.py). The audits (audits/) read collected tables through the service
-- and compare them with the policy. The server (server.py) and the command line (cli.py) run audits
-- over devices and report; the server writes an entry to the audit log (audit_log.py). One script
-- builds the files of the fixture backend from a capture, another checks a server over such files.
--
-- The files. Base holds lists, dicts, sets, integers and the order of strings (Base/Order); Text
-- and Value the strings and JSON values of Python, with `str` and `repr`; Errors exceptions and
-- results. Redaction is redaction.py, with regular expressions as lists of pieces
-- (Redaction/Pattern) and the addresses of the ipaddress library (Redaction/Address). Registry is
-- registry.py, Config config.py, Credentials credentials.py with its cache. Backend is the
-- interface of backends/base.py and Backend/Fixture the fixture backend. Backend/Live is
-- backends/routeros_api.py: what it uses of librouteros in Backend/Live/Library, the rows in
-- Backend/Live/Rows, a connection and its query in Backend/Live/Calls. Service is service.py: its
-- guards in Service, the methods for one device in Service/Collectors, `list_devices` and
-- `fleet_call` in Service/Fleet. Audit is audits/base.py and the helpers of
-- audits/policy_backed.py; each audit has a file of its own name under Audit: Firmware, Snmp, Stp,
-- Vlan, Trunk, DefaultRoute, Ownership and Failover for audits/policy_backed.py, Qos, Dns,
-- DeadMangle, Backup, Correlation and Dscp for the other files of audits/. AuditLog is
-- audit_log.py. Server is the tool `run_audit`, Server/Audits the registry of audits, Server/Tools
-- the other tools, `create_server` and `main`. Cli is the report of cli.py, Cli/Commands its
-- commands and `main`. Refresh is how scripts/refresh_routeros_fixture.py builds a fixture, with
-- its redaction in Refresh/Redact and its tables in Refresh/Tables; Refresh/Capture is its capture
-- and `main`. Smoke is scripts/smoke_mcp_fixture.py. The remaining files hold proofs, and Tests
-- concrete runs.
--
-- How state is modelled. A service is a record of the inventory, the backends, the policy and the
-- override of the transport, which nothing changes. The audit log is a file that each tool takes
-- and returns: the lines written so far and whether it can be written. The cache of credentials is
-- a dict that a resolution takes and returns. A method of the live backend returns its result with
-- the connections that it opened and closed, in order, and a capture with the files that it wrote
-- and removed and the playbooks that it ran. A call that may raise returns a `Result`. A Python
-- dict is a list of pairs in insertion order; a set is a list, of which only membership and
-- emptiness are read. A formatted text is the list of its parts. An audit is a function from a
-- service and a device to a result.
--
-- Parameters. A backend is any function from a method, a device and keyword arguments to a result;
-- what Pydantic makes of an inventory entry is the function `parse_entry`, of which `ReadsText`
-- says that it takes text fields as they stand, and of a policy `parse_policy`; the directory of
-- fixtures is a function to file states; the clock and the reading of dates are a record of
-- functions, and an entry of the log takes its id, time and duration from a `Ticket`. librouteros
-- is a record of functions, any that answers a connection and a menu, and has the files of
-- certificates and the decoder of bytes in it; what the vault command prints, and the playbook of a
-- capture with what it leaves, are parameters too. The registry of audits is a parameter of
-- `run_audit` and the report, whose theorems hold for any.
--
-- Bounds. Each loop recurs on its list, its value or its text, and the matcher of the patterns on
-- the pattern; the patterns of the source never need to give back what a piece took. Only the
-- printing of a number runs on fuel, the number itself and one more, while each step divides it by
-- ten. Counts are natural numbers without a bound, as Python's are. The fan-out of `run_audit` is
-- bounded by 128, the log of a live device by its last 500 entries.
--
-- Not modelled: the diagnostic logger, argparse, the MCP library, the encoding of JSON as text and the
-- order of keys in it, the paths of files, the fingerprint of a reference to credentials, floats in
-- JSON values, letters and spaces beyond ASCII in `lower`, `strip` and the patterns, and the time zone
-- that the evidence of the backup audit prints a date in. Two calls are taken never to fail: the
-- closing of a connection, and the writing of a file of variables in a capture. The cache of
-- credentials is modelled, and no theorem is about it.
pub mod Base
pub mod Text
pub mod Value
pub mod Errors
pub mod Redaction
pub mod Registry
pub mod Config
pub mod Credentials
pub mod Backend
pub mod Service
pub mod Audit
pub mod AuditLog
pub mod Server
pub mod Cli
pub mod Refresh
pub mod Smoke
mod Tests
