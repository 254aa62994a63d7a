-- ===== src/Cli/Templates.antt =====
-- migrations/templates.py, line by line. `repr` of a text is a parameter.
use krossdb.Common.{String, List, [], ◌∷◌}
use krossdb.Common.Text.{◌+++◌}

-- A text from its lines, each of which ends.
unfoldable pub unlines : List String → String
unlines [] = ""
unlines (l ∷ ls) = l +++ "\n" +++ unlines ls

abbrev pub script_py_mako : String
script_py_mako = unlines (
    "\"\"\"${message}" ∷ "" ∷ "Revision ID: ${up_revision}" ∷ "Revises: ${down_revision | comma,n}"
    ∷ "Create Date: ${create_date}" ∷ "" ∷ "\"\"\"" ∷ "from __future__ import annotations" ∷ ""
    ∷ "from collections.abc import Sequence" ∷ "" ∷ "import sqlalchemy as sa"
    ∷ "from alembic import op" ∷ "${imports if imports else \"\"}" ∷ ""
    ∷ "revision: str = ${repr(up_revision)}" ∷ "down_revision: str | None = ${repr(down_revision)}"
    ∷ "branch_labels: str | Sequence[str] | None = ${repr(branch_labels)}"
    ∷ "depends_on: str | Sequence[str] | None = ${repr(depends_on)}" ∷ "" ∷ ""
    ∷ "def upgrade() -> None:" ∷ "    ${upgrades if upgrades else \"pass\"}" ∷ "" ∷ ""
    ∷ "def downgrade() -> None:" ∷ "    ${downgrades if downgrades else \"pass\"}" ∷ [])

-- `_ENV_PY_TEMPLATE` with its three fields.
unfoldable pub render_env_py : String → String → String → String
unfolding unlines
render_env_py metadata_path connection config_path = unlines (
    "\"\"\"Alembic environment, wired to krossdb's own connection config."
    ∷ ""
    ∷ "Generated by ``krossdb schema init-migrations``. Day-to-day migration work"
    ∷ "still goes through the standard ``alembic`` CLI (revision/upgrade/downgrade/"
    ∷ "history) — this file only resolves the database URL and target metadata from"
    ∷ "krossdb instead of a hardcoded ``sqlalchemy.url`` in alembic.ini."
    ∷ "\"\"\""
    ∷ ""
    ∷ "from __future__ import annotations"
    ∷ ""
    ∷ "import importlib"
    ∷ "from logging.config import fileConfig"
    ∷ ""
    ∷ "from alembic import context"
    ∷ ""
    ∷ "from krossdb.migrations import configure"
    ∷ ""
    ∷ "config = context.config"
    ∷ "if config.config_file_name is not None:"
    ∷ "    fileConfig(config.config_file_name)"
    ∷ ""
    ∷ ("_module_path, _, _attr = \"" +++ metadata_path +++ "\".partition(\":\")")
    ∷ "_module = importlib.import_module(_module_path)"
    ∷ "target_metadata = getattr(_module, _attr)"
    ∷ ""
    ∷ ("configure(target_metadata, connection_name=\"" +++ connection +++ "\", config_path=\""
        +++ config_path +++ "\")")
    ∷ [])

-- `_ALEMBIC_INI_TEMPLATE` with its two fields.
unfoldable pub render_alembic_ini : (String → String) → String → String → String
unfolding unlines
render_alembic_ini repr alembic_dir connection = unlines (
    "[alembic]"
    ∷ ("script_location = " +++ alembic_dir)
    ∷ "prepend_sys_path = ."
    ∷ ""
    ∷ "# krossdb sets sqlalchemy.url at runtime (see alembic/env.py) from"
    ∷ ("# krossdb.yaml's " +++ repr connection +++ " connection, so no URL is hardcoded here.")
    ∷ ""
    ∷ "[post_write_hooks]"
    ∷ ""
    ∷ "[loggers]"
    ∷ "keys = root,sqlalchemy,alembic"
    ∷ ""
    ∷ "[handlers]"
    ∷ "keys = console"
    ∷ ""
    ∷ "[formatters]"
    ∷ "keys = generic"
    ∷ ""
    ∷ "[logger_root]"
    ∷ "level = WARNING"
    ∷ "handlers = console"
    ∷ "qualname ="
    ∷ ""
    ∷ "[logger_sqlalchemy]"
    ∷ "level = WARNING"
    ∷ "handlers ="
    ∷ "qualname = sqlalchemy.engine"
    ∷ ""
    ∷ "[logger_alembic]"
    ∷ "level = INFO"
    ∷ "handlers ="
    ∷ "qualname = alembic"
    ∷ ""
    ∷ "[handler_console]"
    ∷ "class = StreamHandler"
    ∷ "args = (sys.stderr,)"
    ∷ "level = NOTSET"
    ∷ "formatter = generic"
    ∷ ""
    ∷ "[formatter_generic]"
    ∷ "format = %(levelname)-5.5s [%(name)s] %(message)s"
    ∷ "datefmt = %H:%M:%S"
    ∷ [])
