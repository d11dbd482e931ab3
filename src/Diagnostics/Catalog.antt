-- ===== src/Diagnostics/Catalog.antt =====
-- diagnostics/diagnostic_descriptor.hpp: the id and the default severity of the catalog entries that
-- server.cpp emits.
use server_engine_v.Diagnostics.{DiagnosticDescriptor, warning, error, fatal}

abbrev pub server_policy_denied : DiagnosticDescriptor
server_policy_denied = record { id = 1002; default_severity = error }

abbrev pub project_already_loaded : DiagnosticDescriptor
project_already_loaded = record { id = 2001; default_severity = error }

abbrev pub project_not_loaded : DiagnosticDescriptor
project_not_loaded = record { id = 2002; default_severity = error }

abbrev pub runtime_query_invalid : DiagnosticDescriptor
runtime_query_invalid = record { id = 3001; default_severity = error }

abbrev pub runtime_query_not_found : DiagnosticDescriptor
runtime_query_not_found = record { id = 3002; default_severity = error }

abbrev pub runtime_query_unsupported : DiagnosticDescriptor
runtime_query_unsupported = record { id = 3003; default_severity = error }

abbrev pub runtime_query_failed : DiagnosticDescriptor
runtime_query_failed = record { id = 3004; default_severity = error }

abbrev pub runtime_ic_invalid : DiagnosticDescriptor
runtime_ic_invalid = record { id = 3011; default_severity = error }

abbrev pub runtime_ic_not_found : DiagnosticDescriptor
runtime_ic_not_found = record { id = 3012; default_severity = error }

abbrev pub runtime_ic_type_mismatch : DiagnosticDescriptor
runtime_ic_type_mismatch = record { id = 3013; default_severity = error }

abbrev pub runtime_ic_failed : DiagnosticDescriptor
runtime_ic_failed = record { id = 3014; default_severity = error }

abbrev pub runtime_ic_io_failed : DiagnosticDescriptor
runtime_ic_io_failed = record { id = 3015; default_severity = error }

abbrev pub runtime_state_invalid : DiagnosticDescriptor
runtime_state_invalid = record { id = 3021; default_severity = error }

abbrev pub server_identity_start_failed : DiagnosticDescriptor
server_identity_start_failed = record { id = 1171; default_severity = fatal }

abbrev pub server_identity_unsupported : DiagnosticDescriptor
server_identity_unsupported = record { id = 1172; default_severity = fatal }

abbrev pub server_demo_mode : DiagnosticDescriptor
server_demo_mode = record { id = 1003; default_severity = warning }

abbrev pub communication_start_failed : DiagnosticDescriptor
communication_start_failed = record { id = 1201; default_severity = error }

abbrev pub communication_unsupported_transport : DiagnosticDescriptor
communication_unsupported_transport = record { id = 1202; default_severity = error }

abbrev pub server_lease_read_failed : DiagnosticDescriptor
server_lease_read_failed = record { id = 1124; default_severity = fatal }

abbrev pub server_lease_invalid : DiagnosticDescriptor
server_lease_invalid = record { id = 1125; default_severity = fatal }

abbrev pub server_lease_not_active : DiagnosticDescriptor
server_lease_not_active = record { id = 1126; default_severity = fatal }

abbrev pub server_lease_expired : DiagnosticDescriptor
server_lease_expired = record { id = 1127; default_severity = fatal }

abbrev pub license_read_failed : DiagnosticDescriptor
license_read_failed = record { id = 1121; default_severity = fatal }

abbrev pub license_invalid : DiagnosticDescriptor
license_invalid = record { id = 1122; default_severity = fatal }

abbrev pub license_expired : DiagnosticDescriptor
license_expired = record { id = 1123; default_severity = fatal }
